-- ===== src/Hub/Flushing.antt =====
-- vnet/client/hub/hub_tx.go: how `txLoop` collects the packets of an event by destination and sends
-- the batches.
use mathlib.Core.Path.{subst}
use go_vnet.Base.{
  ℕ, ◌+◌, ◌<◌, ◌≡◌, refl, sym, ap, ◌∙◌, inl, inr, false, List, [], ◌∷◌, ◌++◌, arith, append_assoc,
  append-nil, length, length-append, lt→ltb, ◌==◌, ==_iff, if◌then◌else◌, Bool-cases,
}
use go_vnet.Hub.{push, recycle, batch_of, put_batch, remove_batch, aggregate, flush, send_batches}
use go_vnet.Hub.Batches.{
  pushed_by, delivered, routed_to, delivered-append, IsBatches, has, batch_of-put_batch,
  batch_of-remove_batch, put_batch-IsBatches, remove_batch-IsBatches,
}

module _ {P : Type 0} where
  -- one packet more for its destination
  route_step :
      (d dst : ℕ) (p : P) (batches : List (ℕ × List P)) (routed : List P)
      → (if dst == d then batch_of dst batches ++ p ∷ [] else batch_of d batches) ++ routed
        ≡ batch_of d batches ++ ((if dst == d then p ∷ [] else []) ++ routed)
  route_step d dst p batches routed = elim (Bool-cases (dst == d)) [
    | inl same ↦
        rw (same, (==_iff dst d).0 same) (append_assoc (batch_of d batches) (p ∷ []) routed)
    | inr other ↦ rw other refl
  ]

  aggregate-delivered :
      (d size : ℕ) (batches : List (ℕ × List P)) (routes : List (ℕ × P))
      → delivered d (aggregate size batches routes).0
          ++ batch_of d (aggregate size batches routes).1
        ≡ batch_of d batches ++ routed_to d routes
  unfolding aggregate
  aggregate-delivered d size batches [] = sym (append-nil (batch_of d batches))
  aggregate-delivered d size batches ((dst, p) ∷ routes) =
      elim (Bool-cases (length (batch_of dst batches ++ p ∷ []) == size)) [
        | inl full ↦ rw full (
            append_assoc (pushed_by d (push dst (batch_of dst batches ++ p ∷ [])))
              (delivered d (aggregate size (remove_batch dst batches) routes).0)
              (batch_of d (aggregate size (remove_batch dst batches) routes).1)
            ∙ ap (λ l. pushed_by d (push dst (batch_of dst batches ++ p ∷ [])) ++ l)
                (aggregate-delivered d size (remove_batch dst batches) routes
                  ∙ ap (λ l. l ++ routed_to d routes) (batch_of-remove_batch d dst batches))
            ∙ pushed
            ∙ route_step d dst p batches (routed_to d routes))
        | inr partial ↦ rw partial (
            aggregate-delivered d size (put_batch dst (batch_of dst batches ++ p ∷ []) batches)
              routes
            ∙ ap (λ l. l ++ routed_to d routes)
                (batch_of-put_batch d dst (batch_of dst batches ++ p ∷ []) batches)
            ∙ route_step d dst p batches (routed_to d routes))
      ]
    where
      pushed :
          (if dst == d then batch_of dst batches ++ p ∷ [] else [])
            ++ ((if dst == d then [] else batch_of d batches) ++ routed_to d routes)
          ≡ (if dst == d then batch_of dst batches ++ p ∷ [] else batch_of d batches)
            ++ routed_to d routes
      pushed = elim (Bool-cases (dst == d)) [ inl e ↦ rw e refl | inr e ↦ rw e refl ]

  batch_of-small :
      (size dst : ℕ) (batches : List (ℕ × List P))
      → 0 < size
      → IsBatches size batches
      → length (batch_of dst batches) < size
  unfolding batch_of
  batch_of-small size dst [] pos h = pos
  batch_of-small size dst ((k, held) ∷ batches) pos h =
      ground (arith, batch_of-small size dst batches pos h.3)

  aggregate-IsBatches :
      (size : ℕ) (batches : List (ℕ × List P)) (routes : List (ℕ × P))
      → 0 < size
      → IsBatches size batches
      → IsBatches size (aggregate size batches routes).1
  unfolding aggregate
  aggregate-IsBatches size batches [] pos h = h
  aggregate-IsBatches size batches ((dst, p) ∷ routes) pos h =
      elim (Bool-cases (length (batch_of dst batches ++ p ∷ []) == size)) [
        | inl full ↦ rw full (
            aggregate-IsBatches size (remove_batch dst batches) routes pos
              (remove_batch-IsBatches size dst batches h))
        | inr partial ↦ rw partial (
            aggregate-IsBatches size (put_batch dst (batch_of dst batches ++ p ∷ []) batches) routes
              pos
              (put_batch-IsBatches size dst (batch_of dst batches ++ p ∷ []) batches h
                (omega (arith, grown)) (below partial)))
      ]
    where
      grown : length (batch_of dst batches ++ p ∷ []) ≡ length (batch_of dst batches) + 1
      grown = length-append (batch_of dst batches) (p ∷ [])

      below :
          (length (batch_of dst batches ++ p ∷ []) == size) ≡ false
          → length (batch_of dst batches ++ p ∷ []) < size
      below partial = ground (arith, grown, batch_of-small size dst batches pos h)

  flush-absent :
      (d : ℕ) (batches : List (ℕ × List P))
      → has d batches ≡ false
      → delivered d (flush batches) ≡ []
  unfolding flush
  flush-absent d [] h = refl
  flush-absent d ((k, held) ∷ batches) h = ground (arith, flush-absent d batches)

  flush-delivered :
      (size d : ℕ) (batches : List (ℕ × List P))
      → IsBatches size batches
      → delivered d (flush batches) ≡ batch_of d batches
  unfolding flush batch_of
  flush-delivered size d [] h = refl
  flush-delivered size d ((k, held) ∷ batches) (once, lo, hi, h) =
      rw (lt→ltb 0 (length held) lo) (elim (Bool-cases (k == d)) [
        | inl same ↦ rw same (
            ap (λ l. held ++ l)
              (flush-absent d batches
                (subst (λ x. has x batches ≡ false) ((==_iff k d).0 same) once))
            ∙ append-nil held)
        | inr other ↦ rw other (flush-delivered size d batches h)
      ])

  pub send_batches-delivered :
      (size d : ℕ) (packets : List P) (routes : List (ℕ × P))
      → 0 < size
      → delivered d (send_batches size packets routes) ≡ routed_to d routes
  unfolding send_batches batch_of
  send_batches-delivered size d packets routes pos =
      let done = aggregate size [] routes in
      delivered-append d done.0 (recycle packets ∷ flush done.1)
      ∙ ap (λ l. delivered d done.0 ++ l)
          (flush-delivered size d done.1 (aggregate-IsBatches size [] routes pos tt))
      ∙ aggregate-delivered d size [] routes
