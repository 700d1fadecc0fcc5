-- ===== src/SessionQuic/Reassembly.antt =====
-- How `messageReassembler` of common/session/session_quic.go puts a message together.
use mathlib.Core.Path.{subst}
use go_vnet.Base.{
  ℕ, ◌+◌, ◌%◌, ◌^◌, ◌≤◌, ◌<◌, ◌≡◌, refl, sym, ap, ◌∙◌, ◌⊎◌, inl, inr, true, false, Option, none,
  some, List, arith, length, get_elem?, set, replicate, length-replicate, leb, ◌==◌, ==_iff,
  if◌then◌else◌, Bool-cases, find, store, find-store,
}
use go_vnet.SessionQuic.{
  PartialMessage, Reassembler, or_new, message_for, is_missing, with_fragment, accept, add_to,
  add_fragment,
}
use go_vnet.SessionQuic.Headers.{header}
use go_vnet.SessionQuic.Slots.{
  concat, present, IsPartOf, replicate-IsPartOf, present-replicate, length-IsPartOf, set-IsPartOf,
  present-set, is_missing-set, is_missing-set_self, present-full, assemble-full,
  is_missing-replicate,
}

-- the partial message of a number, with a new one for so many fragments
abbrev pub partial_of : ℕ → ℕ → Reassembler → PartialMessage
partial_of id count r = or_new count (find id r)

partial_of-store :
    (id count : ℕ) (m : PartialMessage) (r : Reassembler) → partial_of id count (store id m r) ≡ m
unfolding or_new
partial_of-store id count m r =
    let own : (id == id) ≡ true = ground arith in
    let there : find id (store id m r) ≡ some m =
      find-store id id m r ∙ ap (λ b. if b then some m else find id r) own in
    ap (or_new count) there

module _ (id : ℕ) (fs : List (List ℕ)) where
  -- some fragments of the message are there, but not all
  abbrev pub IsWaiting : PartialMessage → Type 0
  IsWaiting m =
      IsPartOf fs m.fragments × (m.received ≡ present m.fragments) × (m.received < length fs)

  abbrev pub IsHeld : ℕ → PartialMessage → Type 0
  IsHeld j m = is_missing (get_elem? m.fragments j) ≡ false

  pub new-IsWaiting :
      (r : Reassembler) → find id r ≡ none → 0 < length fs → IsWaiting (partial_of id (length fs) r)
  unfolding or_new
  new-IsWaiting r e some_fragment =
      subst (λ o. IsWaiting (or_new (length fs) o)) (sym e)
        (replicate-IsPartOf fs, sym (present-replicate (length fs)), some_fragment)

  -- A message that is waited for is not complete.
  pub waiting-incomplete :
      (m : PartialMessage) → IsWaiting m → ((j : ℕ) → j < length fs → IsHeld j m) → ⊥
  waiting-incomplete m (parts, count, fewer) all =
      let size = length-IsPartOf fs m.fragments parts in
      let full = present-full m.fragments λ j h. all j (omega (arith, h, size)) in
      omega (arith, count, fewer, size, full)

  add_to-again :
      (i : ℕ) (f : List ℕ) (m : PartialMessage) (r : Reassembler)
      → length m.fragments ≡ length fs
      → i < length fs
      → IsHeld i m
      → add_to (header id (length fs) i) f m r ≡ (store id m r, none)
  unfolding add_to
  add_to-again i f m r size inside held =
      let match : (length m.fragments == length fs) ≡ true = ground arith in
      let below : leb (length m.fragments) i ≡ false = ground arith in rw (match, below, held) refl

  add_to-new :
      (i : ℕ) (f : List ℕ) (m : PartialMessage) (r : Reassembler)
      → length m.fragments ≡ length fs
      → i < length fs
      → is_missing (get_elem? m.fragments i) ≡ true
      → add_to (header id (length fs) i) f m r
        ≡ accept (header id (length fs) i) (with_fragment i f m) (store id m r)
  unfolding add_to
  add_to-new i f m r size inside missing =
      let match : (length m.fragments == length fs) ≡ true = ground arith in
      let below : leb (length m.fragments) i ≡ false = ground arith in
      rw (match, below, missing) refl

  with_fragment-IsWaiting :
      (i : ℕ) (f : List ℕ) (m : PartialMessage)
      → length fs < 2 ^ 16
      → get_elem? fs i ≡ some f
      → IsWaiting m
      → is_missing (get_elem? m.fragments i) ≡ true
      → let w = with_fragment i f m in
        IsPartOf fs w.fragments × (w.received ≡ present w.fragments) × (w.received ≤ length fs)
  unfolding with_fragment
  with_fragment-IsWaiting i f m few e (parts, count, fewer) missing = (
    set-IsPartOf fs m.fragments i f parts e,
    omega (arith, present-set m.fragments i f missing, count, fewer, few),
    omega (arith, fewer),
  )

  -- what a fragment comes to, with the partial message before it
  abbrev pub Result : ℕ → PartialMessage → Reassembler × Option (List ℕ) → Type 0
  Result i m res =
      (res.1 ≡ some (concat fs))
      ⊎ ((res.1 ≡ none)
          × IsWaiting (partial_of id (length fs) res.0)
          × ((j : ℕ) → IsHeld j m ⊎ (j ≡ i) → IsHeld j (partial_of id (length fs) res.0)))

  stored-Result :
      (i : ℕ) (m w : PartialMessage) (r : Reassembler)
      → IsWaiting w
      → ((j : ℕ) → IsHeld j m ⊎ (j ≡ i) → IsHeld j w)
      → Result i m (store id w r, none)
  stored-Result i m w r waiting held =
      inr (refl, subst IsWaiting back waiting, λ j h. subst (IsHeld j) back (held j h))
    where
      back : w ≡ partial_of id (length fs) (store id w r)
      back = sym (partial_of-store id (length fs) w r)

  IsHeld-with_fragment :
      (i : ℕ) (f : List ℕ) (m : PartialMessage) (j : ℕ)
      → IsHeld j m ⊎ (j ≡ i)
      → IsHeld j (with_fragment i f m)
  unfolding with_fragment
  IsHeld-with_fragment i f m j (inl h) = is_missing-set m.fragments i j f h
  IsHeld-with_fragment i f m j (inr e) =
      subst (λ k. is_missing (get_elem? (set m.fragments i (some f)) k) ≡ false) (sym e)
        (is_missing-set_self m.fragments i f)

  accept-Result :
      (i : ℕ) (f : List ℕ) (m : PartialMessage) (r : Reassembler)
      → length fs < 2 ^ 16
      → get_elem? fs i ≡ some f
      → IsWaiting m
      → is_missing (get_elem? m.fragments i) ≡ true
      → Result i m (accept (header id (length fs) i) (with_fragment i f m) r)
  unfolding accept
  accept-Result i f m r few e waiting missing =
      let w = with_fragment i f m in
      let (parts, count, fewer) = with_fragment-IsWaiting i f m few e waiting missing in
      elim (Bool-cases (w.received == length fs)) [
        | inl all ↦
            let size = length-IsPartOf fs w.fragments parts in
            rw all (
              inl (
                ap some (
                  assemble-full fs w.fragments parts
                    (omega (arith, count, size, (==_iff w.received (length fs)).0 all)))))
        | inr some_left ↦ rw some_left (
            stored-Result i m w r (parts, count, below w.received fewer some_left)
              (IsHeld-with_fragment i f m))
      ]
    where
      below : (n : ℕ) → n ≤ length fs → (n == length fs) ≡ false → n < length fs
      below n h ne = ground arith

  -- A fragment of a message that is waited for completes the message, and then what is returned is
  -- that message, or it is kept with those that are there.
  pub add_fragment-Result :
      (i : ℕ) (f : List ℕ) (r : Reassembler)
      → length fs < 2 ^ 16
      → i < length fs
      → get_elem? fs i ≡ some f
      → IsWaiting (partial_of id (length fs) r)
      → Result i (partial_of id (length fs) r) (add_fragment (header id (length fs) i) f r)
  unfolding add_fragment message_for
  add_fragment-Result i f r few inside e waiting =
      let m = partial_of id (length fs) r in
      let size = length-IsPartOf fs m.fragments waiting.0 in
      elim (Bool-cases (is_missing (get_elem? m.fragments i))) [
        | inl missing ↦
            subst (Result i m) (sym (add_to-new i f m r size inside missing))
              (accept-Result i f m (store id m r) few e waiting missing)
        | inr held ↦
            subst (Result i m) (sym (add_to-again i f m r size inside held))
              (stored-Result i m m r waiting (again m held))
      ]
    where
      again : (m : PartialMessage) → IsHeld i m → (j : ℕ) → IsHeld j m ⊎ (j ≡ i) → IsHeld j m
      again m held j (inl h) = h
      again m held j (inr q) = subst (λ k. IsHeld k m) (sym q) held

first_fragment :
    (id count i : ℕ) (f : List ℕ) (r : Reassembler)
    → 1 < count
    → i < count
    → (add_to (header id count i) f (record { fragments = replicate count none; received = 0 }) r).1
      ≡ none
unfolding add_to accept with_fragment
first_fragment id count i f r several inside =
    let size = length-replicate {A = Option (List ℕ)} count none in
    let match : (length (replicate {A = Option (List ℕ)} count none) == count) ≡ true =
      ground (arith, size) in
    let below : leb (length (replicate {A = Option (List ℕ)} count none)) i ≡ false =
      ground (arith, size) in
    let more : ((0 + 1) % 2 ^ 16 == count) ≡ false = ground arith in
    rw (match, below, is_missing-replicate count i inside, more) refl

-- The first fragment of a message of several completes nothing.
pub add_fragment_first :
    (id count i : ℕ) (f : List ℕ) (r : Reassembler)
    → find id r ≡ none
    → 1 < count
    → i < count
    → (add_fragment (header id count i) f r).1 ≡ none
unfolding add_fragment message_for or_new
add_fragment_first id count i f r fresh several inside =
    ap (λ o. (add_to (header id count i) f (or_new count o) r).1) fresh
    ∙ first_fragment id count i f r several inside
