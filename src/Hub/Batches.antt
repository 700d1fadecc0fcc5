-- ===== src/Hub/Batches.antt =====
-- The batches of vnet/client/hub/hub_tx.go as a map from destinations to packets.
use go_vnet.Base.{
  ℕ, ◌<◌, ◌≡◌, refl, Bool, true, false, List, [], ◌∷◌, ◌++◌, arith, length, append_assoc, ◌==◌,
  if◌then◌else◌, sym, ap, ◌∙◌,
}
use go_vnet.Hub.{Action, push, recycle, batch_of, put_batch, remove_batch}

module _ {P : Type 0} where
  -- the packets that the actions push to a destination, in their order
  abbrev pub pushed_by : ℕ → Action P → List P
  pushed_by dst (push d packets) = if d == dst then packets else []
  pushed_by dst (recycle packets) = []

  abbrev pub delivered : ℕ → List (Action P) → List P
  delivered dst [] = []
  delivered dst (a ∷ actions) = pushed_by dst a ++ delivered dst actions

  -- the packets with a route to a destination
  abbrev pub routed_to : ℕ → List (ℕ × P) → List P
  routed_to dst [] = []
  routed_to dst ((d, p) ∷ routes) = (if d == dst then p ∷ [] else []) ++ routed_to dst routes

  pub delivered-append :
      (dst : ℕ) (xs ys : List (Action P))
      → delivered dst (xs ++ ys) ≡ delivered dst xs ++ delivered dst ys
  delivered-append dst [] ys = refl
  delivered-append dst (a ∷ xs) ys =
      ap (λ l. pushed_by dst a ++ l) (delivered-append dst xs ys)
      ∙ sym (append_assoc (pushed_by dst a) (delivered dst xs) (delivered dst ys))

  -- a destination has a batch
  abbrev pub has : ℕ → List (ℕ × List P) → Bool
  has dst [] = false
  has dst ((d, packets) ∷ batches) = if d == dst then true else has dst batches

  -- No destination has two batches, and each batch has fewer than `size` packets, and one at least.
  abbrev pub IsBatches : ℕ → List (ℕ × List P) → Type 0
  IsBatches size [] = Unit
  IsBatches size ((d, packets) ∷ batches) =
      (has d batches ≡ false)
      × (0 < length packets)
      × (length packets < size)
      × IsBatches size batches

  pub batch_of-put_batch :
      (d e : ℕ) (packets : List P) (batches : List (ℕ × List P))
      → batch_of d (put_batch e packets batches) ≡ (if e == d then packets else batch_of d batches)
  unfolding batch_of put_batch
  batch_of-put_batch d e packets [] = refl
  batch_of-put_batch d e packets ((k, held) ∷ batches) =
      ground (arith, batch_of-put_batch d e packets batches)

  pub batch_of-remove_batch :
      (d e : ℕ) (batches : List (ℕ × List P))
      → batch_of d (remove_batch e batches) ≡ (if e == d then [] else batch_of d batches)
  unfolding batch_of remove_batch
  batch_of-remove_batch d e [] = ground arith
  batch_of-remove_batch d e ((k, held) ∷ batches) =
      ground (arith, batch_of-remove_batch d e batches)

  has-put_batch :
      (d e : ℕ) (packets : List P) (batches : List (ℕ × List P))
      → has d (put_batch e packets batches) ≡ (if e == d then true else has d batches)
  unfolding put_batch
  has-put_batch d e packets [] = refl
  has-put_batch d e packets ((k, held) ∷ batches) =
      ground (arith, has-put_batch d e packets batches)

  has-remove_batch :
      (d e : ℕ) (batches : List (ℕ × List P))
      → has d (remove_batch e batches) ≡ (if e == d then false else has d batches)
  unfolding remove_batch
  has-remove_batch d e [] = ground arith
  has-remove_batch d e ((k, held) ∷ batches) = ground (arith, has-remove_batch d e batches)

  pub put_batch-IsBatches :
      (size e : ℕ) (packets : List P) (batches : List (ℕ × List P))
      → IsBatches size batches
      → 0 < length packets
      → length packets < size
      → IsBatches size (put_batch e packets batches)
  unfolding put_batch
  put_batch-IsBatches size e packets [] h lo hi = (refl, lo, hi, tt)
  put_batch-IsBatches size e packets ((k, held) ∷ batches) h lo hi = ground (
    arith,
    put_batch-IsBatches size e packets batches h.3 lo hi,
    has-put_batch k e packets batches,
  )

  pub remove_batch-IsBatches :
      (size e : ℕ) (batches : List (ℕ × List P))
      → IsBatches size batches
      → IsBatches size (remove_batch e batches)
  unfolding remove_batch
  remove_batch-IsBatches size e [] h = tt
  remove_batch-IsBatches size e ((k, held) ∷ batches) h =
      ground (arith, remove_batch-IsBatches size e batches h.3, has-remove_batch k e batches)
