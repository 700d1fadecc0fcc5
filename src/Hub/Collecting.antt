-- ===== src/Hub/Collecting.antt =====
-- What `Destination.txLoopN` of vnet/client/hub/hub_tx.go takes from its channel for one write.
use mathlib.Core.Path.{ap₂}
use go_vnet.Base.{
  ℕ, zero, suc, ◌-◌, ◌≤◌, ◌<◌, ◌≡◌, refl, sym, ap, ◌∙◌, ◌⊎◌, inl, inr, true, false, none, some,
  List, [], ◌∷◌, ◌++◌, arith, length, length-append, take, length-take, ltb,
}
use go_vnet.Hub.{collect, collect_more}

module _ {P : Type 0} where
  abbrev pub packets_of : List (List P) → List P
  packets_of [] = []
  packets_of (event ∷ events) = event ++ packets_of events

  take-append_both :
      (n : ℕ) (xs ys : List P) → take n (xs ++ ys) ≡ take n xs ++ take (n - length xs) ys
  take-append_both zero [] ys = refl
  take-append_both (suc n) [] ys =
      let same : suc n ≡ suc n - 0 = omega arith in ap (λ k. take k ys) same
  take-append_both zero (x ∷ xs) ys =
      let same : 0 ≡ 0 - suc (length xs) = omega arith in ap (λ k. take k ys) same
  take-append_both (suc n) (x ∷ xs) ys =
      let same : n - length xs ≡ suc n - suc (length xs) = omega arith in
      ap (λ l. x ∷ l) (take-append_both n xs ys) ∙ ap (λ k. x ∷ (take n xs ++ take k ys)) same

  -- what is taken, what goes back, and what stays
  abbrev Taken : ℕ → List (List P) → List P × List (List P) × List (List P) → Type 0
  Taken room queue r =
      (r.0 ≡ take room (packets_of r.1)) × (r.1 ++ r.2 ≡ queue) × ((r.2 ≡ []) ⊎ (length r.0 ≡ room))

  take-nil : (n : ℕ) → [] ≡ take {A = P} n []
  take-nil zero = refl
  take-nil (suc n) = refl

  take-take-length :
      (n : ℕ) (xs ys : List P) → take (n - length (take n xs)) ys ≡ take (n - length xs) ys
  take-take-length n xs ys = ap (λ k. take k ys) (omega (arith, length-take n xs))

  full_length :
      (room : ℕ) (xs ys : List P)
      → length ys ≡ room - length (take room xs)
      → length (take room xs ++ ys) ≡ room
  full_length room xs ys h = omega (arith, h, length-append (take room xs) ys, length-take room xs)

  pub collect_more-Taken :
      (room : ℕ) (queue : List (List P)) → Taken room queue (collect_more room queue)
  unfolding collect_more
  collect_more-Taken room [] = (take-nil room, refl, inl refl)
  collect_more-Taken zero (event ∷ queue) = (refl, refl, inr refl)
  collect_more-Taken (suc room) (event ∷ queue) =
      let packed = take (suc room) event in
      let more = collect_more (suc room - length packed) queue in
      let (written, split, stop) = collect_more-Taken (suc room - length packed) queue in
      (
        ap (λ l. packed ++ l) (written ∙ take-take-length (suc room) event (packets_of more.1))
            ∙ sym (take-append_both (suc room) event (packets_of more.1)),
        ap (λ l. event ∷ l) split,
        elim stop [ inl all ↦ inl all | inr full ↦ inr (full_length (suc room) event more.0 full) ],
      )

  whole : (n : ℕ) (xs : List P) → length xs ≤ n → take n xs ≡ xs
  whole zero [] h = refl
  whole (suc n) [] h = refl
  whole zero (x ∷ xs) h = absurd (omega arith)
  whole (suc n) (x ∷ xs) h = ap (λ l. x ∷ l) (whole n xs (omega arith))

  -- An event of at most `max_buf` packets is written whole, together with the packets of the events
  -- that are waiting as far as the buffer has room: `txLoopN` writes the first `max_buf` packets of
  -- the events it takes, takes them in their order, and gives exactly these back to the pool. It
  -- stops only when the channel is empty or the buffer is full.
  pub collect_prefix :
      (max_buf : ℕ) (event : List P) (queue : List (List P))
      → length event ≤ max_buf
      → (more : List P × List (List P) × List (List P)) × (collect max_buf event queue ≡ some more)
        × (more.0 ≡ take max_buf (packets_of more.1))
        × (more.1 ++ more.2 ≡ event ∷ queue)
        × ((more.2 ≡ []) ⊎ (length more.0 ≡ max_buf))
  unfolding collect
  collect_prefix max_buf event queue fits =
      let more = collect_more (max_buf - length event) queue in
      let (written, split, stop) = collect_more-Taken (max_buf - length event) queue in
      let small : ltb max_buf (length event) ≡ false = ground arith in
      (
        (event ++ more.0, event ∷ more.1, more.2),
        rw small refl,
        ap₂ (λ l m. l ++ m) (sym (whole max_buf event fits)) written
            ∙ sym (take-append_both max_buf event (packets_of more.1)),
        ap (λ l. event ∷ l) split,
        elim stop [
          | inl all ↦ inl all
          | inr full ↦ inr (omega (arith, full, length-append event more.0))
        ],
      )

  -- An event larger than the buffer makes `txLoopN` panic.
  collect_panics :
      (max_buf : ℕ) (event : List P) (queue : List (List P))
      → max_buf < length event
      → collect max_buf event queue ≡ none
  unfolding collect
  collect_panics max_buf event queue large =
      let over : ltb max_buf (length event) ≡ true = ground arith in rw over refl
