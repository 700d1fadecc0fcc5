-- ===== src/SessionQuic/Delivery.antt =====
-- What `Receive` of common/session/session_quic.go returns of what `Send` sends.
use mathlib.Core.Path.{subst}
use go_vnet.Base.{
  ℕ, zero, suc, ◌+◌, ◌*◌, ◌%◌, ◌^◌, ◌≤◌, ◌<◌, ◌≡◌, refl, sym, ap, ◌∙◌, ◌⊎◌, inl, inr, Bool, true,
  false, Option, none, some, List, [], ◌∷◌, ◌++◌, map, arith, length, length-append, get_elem?, leb,
  leb→le, leb→lt, Bool-cases, find,
}
use go_vnet.SessionQuic.{
  FragmentHeader, PartialMessage, Reassembler, fragment_count_of, fragment_data, datagram_of,
  encode, add_fragment, next_message_id, send_fragments, send_message, receive_decoded, continue,
  receive_datagram, receive_message, decode_fragment_header,
}
use go_vnet.SessionQuic.Headers.{header, decode_fragment_header-encode}
use go_vnet.SessionQuic.Slots.{concat}
use go_vnet.SessionQuic.Reassembly.{
  partial_of, IsWaiting, IsHeld, Result, new-IsWaiting, waiting-incomplete, add_fragment-Result,
  add_fragment_first,
}
use go_vnet.SessionQuic.Chunks.{
  chunks, length-chunks, get_elem?-chunks, concat-chunks, fragment_count_of-enough,
  fragment_count_of-few, fragment_count_of-wraps,
}

-- a fragment arrives, and only fragments of the message do
abbrev pub Arrives : ℕ → List ℕ → Type 0
Arrives j [] = ⊥
Arrives j (i ∷ order) = (j ≡ i) ⊎ Arrives j order

abbrev pub AllBelow : ℕ → List ℕ → Type 0
AllBelow n [] = Unit
AllBelow n (i ∷ order) = (i < n) × AllBelow n order

receive_datagram-datagram_of :
    (buf : List ℕ) (id count i : ℕ) (r : Reassembler)
    → id < 2 ^ 32
    → count < 2 ^ 16
    → i < count
    → receive_datagram r (datagram_of buf id count i)
      ≡ add_fragment (header id count i) (fragment_data buf i) r
unfolding receive_datagram datagram_of receive_decoded
receive_datagram-datagram_of buf id count i r small few inside =
    ap (receive_decoded r (datagram_of buf id count i))
      (decode_fragment_header-encode id count i (fragment_data buf i) small few inside)

-- the datagrams of the fragments of a message
abbrev AreFragments : ℕ → List (List ℕ) → (ℕ → List ℕ) → Type 0
AreFragments id fs dg =
    (i : ℕ) (r : Reassembler)
    → i < length fs
    → (f : List ℕ) × (get_elem? fs i ≡ some f)
      × (receive_datagram r (dg i) ≡ add_fragment (header id (length fs) i) f r)

module _ (id : ℕ) (fs : List (List ℕ)) (dg : ℕ → List ℕ) (few : length fs < 2 ^ 16)
    (sends : AreFragments id fs dg) where
  abbrev IsFound : Reassembler × Option (List ℕ) × List (List ℕ) → Type 0
  IsFound got = got.1 ≡ some (concat fs)

  continue-IsFound :
      (i : ℕ) (m : PartialMessage) (one : Reassembler × Option (List ℕ)) (datagrams : List (List ℕ))
      → Result id fs i m one
      → (IsWaiting id fs (partial_of id (length fs) one.0)
          → ((j : ℕ)
              → IsHeld id fs j m ⊎ (j ≡ i)
              → IsHeld id fs j (partial_of id (length fs) one.0))
          → IsFound (receive_message one.0 datagrams))
      → IsFound (continue one datagrams (receive_message one.0 datagrams))
  unfolding continue
  continue-IsFound i m (r, none) datagrams (inl got) go = cc
  continue-IsFound i m (r, some message) datagrams (inl got) go = got
  continue-IsFound i m (r, none) datagrams (inr (nothing, waiting, held)) go = go waiting held
  continue-IsFound i m (r, some message) datagrams (inr (nothing, waiting, held)) go = cc

  receive_waiting :
      (r : Reassembler) (order : List ℕ)
      → AllBelow (length fs) order
      → IsWaiting id fs (partial_of id (length fs) r)
      → ((j : ℕ) → j < length fs → IsHeld id fs j (partial_of id (length fs) r) ⊎ Arrives j order)
      → IsFound (receive_message r (map dg order))
  unfolding receive_message
  receive_waiting r [] inside waiting all =
      absurd
        (waiting-incomplete id fs (partial_of id (length fs) r) waiting λ j h. held j (all j h))
    where
      held :
          (j : ℕ)
          → IsHeld id fs j (partial_of id (length fs) r) ⊎ ⊥
          → IsHeld id fs j (partial_of id (length fs) r)
      held j (inl h) = h
      held j (inr never) = absurd never
  receive_waiting r (i ∷ order) inside waiting all =
      let (f, here, arrives) = sends i r inside.0 in
      let m = partial_of id (length fs) r in
      let result : Result id fs i m (receive_datagram r (dg i)) =
        subst (Result id fs i m) (sym arrives)
          (add_fragment-Result id fs i f r few inside.0 here waiting) in
      continue-IsFound i m (receive_datagram r (dg i)) (map dg order) result λ still held.
        receive_waiting (receive_datagram r (dg i)).0 order inside.1 still
          λ j h. later (receive_datagram r (dg i)).0 held j (all j h)
    where
      later :
          (next : Reassembler)
          → ((j : ℕ)
              → IsHeld id fs j (partial_of id (length fs) r) ⊎ (j ≡ i)
              → IsHeld id fs j (partial_of id (length fs) next))
          → (j : ℕ) → IsHeld id fs j (partial_of id (length fs) r) ⊎ ((j ≡ i) ⊎ Arrives j order)
          → IsHeld id fs j (partial_of id (length fs) next) ⊎ Arrives j order
      later next held j (inl h) = inl (held j (inl h))
      later next held j (inr (inl e)) = inl (held j (inr e))
      later next held j (inr (inr a)) = inr a

chunks-AreFragments :
    (buf : List ℕ) (id count : ℕ)
    → id < 2 ^ 32
    → count < 2 ^ 16
    → AreFragments id (chunks buf 0 count) (datagram_of buf id count)
chunks-AreFragments buf id count small few i r inside =
    let size = length-chunks buf 0 count in
    let below : i < count = omega (arith, inside, size) in
    let whole : 0 + i ≡ i = omega arith in
    (
      fragment_data buf i,
      get_elem?-chunks buf 0 count i below ∙ ap (λ k. some (fragment_data buf k)) whole,
      receive_datagram-datagram_of buf id count i r small few below
          ∙ ap (λ n. add_fragment (header id n i) (fragment_data buf i) r) (sym size),
    )

-- The fragments of a message that `Send` cuts into fewer than 2 ^ 16 make `Receive` return that
-- message, whatever the order in which they arrive and however often each does, provided that each
-- arrives and that no fragment with the same number is held from before.
pub receive_message-any_order :
    (buf : List ℕ) (id : ℕ) (order : List ℕ) (r : Reassembler)
    → id < 2 ^ 32
    → 0 < length buf
    → fragment_count_of buf < 2 ^ 16
    → AllBelow (fragment_count_of buf) order
    → ((j : ℕ) → j < fragment_count_of buf → Arrives j order)
    → find id r ≡ none
    → (receive_message r (map (datagram_of buf id (fragment_count_of buf)) order)).1 ≡ some buf
receive_message-any_order buf id order r small some_bytes few inside all fresh =
    let n = fragment_count_of buf in
    let size = length-chunks buf 0 n in
    let enough = fragment_count_of-enough buf in
    let fs = chunks buf 0 n in
    receive_waiting id fs (datagram_of buf id n) (omega (arith, few, size))
      (chunks-AreFragments buf id n small few) r order
      (subst (λ k. AllBelow k order) (sym size) inside)
      (new-IsWaiting id fs r fresh (omega (arith, size, enough, some_bytes)))
      (λ j h. inr (all j (omega (arith, h, size))))
    ∙ ap some (concat-chunks buf 0 n enough)

-- the numbers of so many fragments from one on
abbrev pub indices : ℕ → ℕ → List ℕ
indices i zero = []
indices i (suc n) = i ∷ indices (i + 1) n

indices-Arrives : (i n j : ℕ) → j < n → Arrives (i + j) (indices i n)
indices-Arrives i zero j h = absurd (omega arith)
indices-Arrives i (suc n) zero h = inl (omega arith)
indices-Arrives i (suc n) (suc j) h =
    let same : i + 1 + j ≡ i + suc j = omega arith in
    inr
      (subst (λ k. Arrives k (indices (i + 1) n)) same (indices-Arrives (i + 1) n j (omega arith)))

indices-AllBelow : (i n k : ℕ) → i + n ≤ k → AllBelow k (indices i n)
indices-AllBelow i zero k h = tt
indices-AllBelow i (suc n) k h = (omega arith, indices-AllBelow (i + 1) n k (omega arith))

send_fragments-indices :
    (accepts : List ℕ → Bool) (buf : List ℕ) (id count i n : ℕ)
    → ((d : List ℕ) → accepts d ≡ true)
    → send_fragments accepts buf id count i n ≡ (map (datagram_of buf id count) (indices i n), true)
unfolding send_fragments
send_fragments-indices accepts buf id count i zero all = refl
send_fragments-indices accepts buf id count i (suc n) all =
    rw (all (datagram_of buf id count i), send_fragments-indices accepts buf id count (i + 1) n all)
      refl

send_message-fragments :
    (accepts : List ℕ → Bool) (counter : ℕ) (buf : List ℕ)
    → ((d : List ℕ) → accepts d ≡ true)
    → 990 < length buf
    → let id = next_message_id counter in
      let count = fragment_count_of buf % 2 ^ 16 in
      send_message accepts counter buf
      ≡ (id, map (datagram_of buf id count) (indices 0 count), true)
unfolding send_message
send_message-fragments accepts counter buf all long =
    let id = next_message_id counter in
    let count = fragment_count_of buf % 2 ^ 16 in
    let large : leb (length buf) 990 ≡ false = ground arith in
    rw (large, send_fragments-indices accepts buf id count 0 count all) refl

send_message-single :
    (accepts : List ℕ → Bool) (counter : ℕ) (buf : List ℕ)
    → ((d : List ℕ) → accepts d ≡ true)
    → length buf ≤ 990
    → send_message accepts counter buf ≡ (counter, buf ∷ [], true)
unfolding send_message
send_message-single accepts counter buf all short =
    let small : leb (length buf) 990 ≡ true = ground arith in rw (small, all buf) refl

receive_message-single :
    (buf : List ℕ) (r : Reassembler)
    → decode_fragment_header buf ≡ none
    → receive_message r (buf ∷ []) ≡ (r, some buf, [])
unfolding receive_message receive_datagram receive_decoded continue
receive_message-single buf r plain =
    ap (λ o. let one = receive_decoded r buf o in continue one [] (one.0, none, [])) plain

next_message_id-small : (counter : ℕ) → next_message_id counter < 2 ^ 32
unfolding next_message_id
next_message_id-small counter = omega arith

-- What `Send` sends of a message of at most 65535 * 990 bytes over a connection that takes every
-- datagram, `Receive` returns, provided that no fragment with the number of the message is held
-- from before, and that a message of at most 990 bytes, which is sent without a header, does not
-- begin like one.
pub receive_message-send_message :
    (accepts : List ℕ → Bool) (counter : ℕ) (buf : List ℕ) (r : Reassembler)
    → ((d : List ℕ) → accepts d ≡ true)
    → length buf ≤ 65535 * 990
    → (length buf ≤ 990 → decode_fragment_header buf ≡ none)
    → find (next_message_id counter) r ≡ none
    → (receive_message r (send_message accepts counter buf).1).1 ≡ some buf
receive_message-send_message accepts counter buf r all fits plain fresh =
    elim (Bool-cases (leb (length buf) 990)) [
      | inl short ↦
          let small : length buf ≤ 990 = leb→le _ _ short in
          ap (λ s. (receive_message r s.1).1) (send_message-single accepts counter buf all small)
          ∙ ap (λ g. g.1) (receive_message-single buf r (plain small))
      | inr long ↦
          let n = fragment_count_of buf in
          let few = fragment_count_of-few buf fits in
          let same : n % 2 ^ 16 ≡ n = omega (arith, few) in
          let id = next_message_id counter in
          ap (λ s. (receive_message r s.1).1)
            (send_message-fragments accepts counter buf all (leb→lt _ _ long))
          ∙ ap (λ k. (receive_message r (map (datagram_of buf id k) (indices 0 k))).1) same
          ∙ receive_message-any_order buf id (indices 0 n) r (next_message_id-small counter)
              (omega (arith, leb→lt _ _ long)) few (indices-AllBelow 0 n n (omega arith))
              (λ j h. subst (λ k. Arrives k (indices 0 n)) (whole j) (indices-Arrives 0 n j h))
              fresh
    ]
  where
    whole : (j : ℕ) → 0 + j ≡ j
    whole j = omega arith

-- `Send` counts the fragments in 16 bits: of a message of 65536 fragments it sends nothing, and
-- reports success.
pub send_message_wraps :
    (accepts : List ℕ → Bool) (counter : ℕ) (buf : List ℕ)
    → ((d : List ℕ) → accepts d ≡ true)
    → 65535 * 990 < length buf
    → length buf ≤ 65536 * 990
    → (send_message accepts counter buf).1 ≡ [] × (send_message accepts counter buf).2 ≡ true
send_message_wraps accepts counter buf all low high =
    let sent =
      send_message-fragments accepts counter buf all (omega (arith, low))
      ∙ ap
          (λ k. (
            next_message_id counter,
            map (datagram_of buf (next_message_id counter) k) (indices 0 k),
            true,
          ))
          (fragment_count_of-wraps buf low high) in
    (ap (λ s. s.1) sent, ap (λ s. s.2) sent)

lost :
    (one : Reassembler × Option (List ℕ))
    → one.1 ≡ none
    → (continue one [] (receive_message one.0 [])).1 ≡ none
unfolding continue receive_message
lost (r, none) h = refl
lost (r, some message) h = h

encode_length : (h : FragmentHeader) → length (encode h) ≡ 10
unfolding encode
encode_length h = refl

-- A message of at most 990 bytes that begins like a fragment of a message of several fragments, of
-- which none is held, is sent as it is and never received.
pub receive_message_swallows :
    (accepts : List ℕ → Bool) (counter id count i : ℕ) (payload : List ℕ) (r : Reassembler)
    → ((d : List ℕ) → accepts d ≡ true)
    → length payload ≤ 980
    → id < 2 ^ 32
    → count < 2 ^ 16
    → 1 < count
    → i < count
    → find id r ≡ none
    → (receive_message r (send_message accepts counter (encode (header id count i) ++ payload)).1).1
      ≡ none
unfolding receive_message receive_datagram receive_decoded
receive_message_swallows accepts counter id count i payload r all short small few several inside
      fresh =
    let buf = encode (header id count i) ++ payload in
    let size : length (encode (header id count i)) ≡ 10 = encode_length (header id count i) in
    ap (λ s. (receive_message r s.1).1)
      (send_message-single accepts counter buf all
        (omega (arith, length-append (encode (header id count i)) payload, size)))
    ∙ ap (λ o. let one = receive_decoded r buf o in (continue one [] (receive_message one.0 [])).1)
        (decode_fragment_header-encode id count i payload small few inside)
    ∙ lost (add_fragment (header id count i) payload r)
        (add_fragment_first id count i payload r fresh several inside)
