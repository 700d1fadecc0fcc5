-- ===== src/Client/Reconnecting.antt =====
-- When and how often the client connects again, vnet/client/sync_router.go.
use go_vnet.Base.{
  ℕ, zero, suc, ◌+◌, ◌-◌, ◌*◌, ◌^◌, ◌≤◌, ◌<◌, ◌≡◌, refl, sym, ap, ◌∙◌, Bool, true, false, ◌||◌,
  List, [], ◌∷◌, arith, ltb, leb, leb→le, leb→lt, if◌then◌else◌, Bool-cases, inl, inr,
}
use go_vnet.Base.Int.{pos, ◌+ℤ◌, ◌*ℤ◌, ltb_ℤ}
use go_vnet.Base.Int64.{int64, int64-pos, +ℤ_pos, *ℤ_pos}
use go_vnet.Client.{fib_loop, fib, next_interval, sleeping, sync_loop}

abbrev pub fibonacci : ℕ → ℕ
fibonacci zero = 0
fibonacci (suc zero) = 1
fibonacci (suc (suc n)) = fibonacci (suc n) + fibonacci n

-- the same numbers, computed in a loop
fibonacci_pair : ℕ → ℕ × ℕ
fibonacci_pair zero = (0, 1)
fibonacci_pair (suc n) = let p = fibonacci_pair n in (p.1, p.1 + p.0)

fibonacci_pair_lem : (n : ℕ) → fibonacci_pair n ≡ (fibonacci n, fibonacci (suc n))
unfolding fibonacci_pair
fibonacci_pair_lem zero = refl
fibonacci_pair_lem (suc n) = ap (λ (p : ℕ × ℕ). (p.1, p.1 + p.0)) (fibonacci_pair_lem n)

fibonacci_92 : fibonacci 92 ≡ 7540113804746346429
unfolding fibonacci_pair
fibonacci_92 = sym (ap (λ (p : ℕ × ℕ). p.0) (fibonacci_pair_lem 92))

fibonacci_grows : (n : ℕ) → fibonacci n ≤ fibonacci (suc n)
fibonacci_grows zero = omega arith
fibonacci_grows (suc n) = omega arith

fibonacci_monotone : (m n : ℕ) → n ≤ m → fibonacci n ≤ fibonacci m
fibonacci_monotone zero n h =
    let same : n ≡ 0 = omega (arith, h) in omega (arith, ap fibonacci same)
fibonacci_monotone (suc m) n h = elim (Bool-cases (leb n m)) [
  | inl below ↦ omega (arith, fibonacci_monotone m n (leb→le n m below), fibonacci_grows m)
  | inr above ↦
      let same : n ≡ suc m = omega (arith, h, leb→lt n m above) in omega (arith, ap fibonacci same)
]

-- no number of the sequence up to the 92nd overflows
fibonacci_small : (n : ℕ) → n ≤ 92 → fibonacci n < 2 ^ 63
fibonacci_small n h = omega (arith, fibonacci_monotone 92 n h, fibonacci_92)

fib_loop-fibonacci :
    (n k : ℕ)
    → n + k ≤ 90
    → fib_loop n (pos (fibonacci (suc k))) (pos (fibonacci (suc (suc k))))
      ≡ pos (fibonacci (suc (suc (n + k))))
unfolding fib_loop
fib_loop-fibonacci zero k h =
    let same : k ≡ 0 + k = omega arith in ap (λ x. pos (fibonacci (suc (suc x)))) same
fib_loop-fibonacci (suc n) k h =
    let next : int64 (pos (fibonacci (suc k)) +ℤ pos (fibonacci (suc (suc k))))
        ≡ pos (fibonacci (suc (suc (suc k)))) =
      ap int64 (+ℤ_pos (fibonacci (suc k)) (fibonacci (suc (suc k))))
      ∙ int64-pos (fibonacci (suc k) + fibonacci (suc (suc k)))
          (below (fibonacci_small (suc (suc (suc k))) (omega (arith, h))))
      ∙ ap pos (swap k) in
    let same : n + suc k ≡ suc n + k = omega arith in
    ap (fib_loop n (pos (fibonacci (suc (suc k))))) next
    ∙ fib_loop-fibonacci n (suc k) (omega (arith, h))
    ∙ ap (λ x. pos (fibonacci (suc (suc x)))) same
  where
    swap : (k : ℕ) → fibonacci (suc k) + fibonacci (suc (suc k)) ≡ fibonacci (suc (suc (suc k)))
    swap k = omega arith

    below :
        fibonacci (suc (suc (suc k))) < 2 ^ 63
        → fibonacci (suc k) + fibonacci (suc (suc k)) < 2 ^ 63
    below h = omega (arith, h)

-- the interval is at most 30 seconds
abbrev pub at_most_30 : ℕ → ℕ
at_most_30 n = if ltb 30 n then 30 else n

abbrev pub starts_with_failures : ℕ → List Bool → Bool
starts_with_failures zero ticks = true
starts_with_failures (suc n) [] = false
starts_with_failures (suc n) (true ∷ ticks) = false
starts_with_failures (suc n) (false ∷ ticks) = starts_with_failures n ticks

-- three failures in a row, somewhere
abbrev pub three_failures : List Bool → Bool
three_failures [] = false
three_failures (t ∷ ticks) = starts_with_failures 3 (t ∷ ticks) || three_failures ticks

absorb :
    (ticks : List Bool) (b : Bool)
    → (starts_with_failures 1 ticks || (starts_with_failures 2 ticks || b))
      ≡ (starts_with_failures 1 ticks || b)
absorb [] b = refl
absorb (true ∷ ticks) b = refl
absorb (false ∷ ticks) b = refl

sync_loop_counts :
    (ticks : List Bool)
    → (sync_loop 0 ticks ≡ three_failures ticks)
      × (sync_loop 1 ticks ≡ (starts_with_failures 2 ticks || three_failures ticks))
      × (sync_loop 2 ticks ≡ (starts_with_failures 1 ticks || three_failures ticks))
unfolding sync_loop
sync_loop_counts [] = (refl, refl, refl)
sync_loop_counts (true ∷ ticks) =
    let (none_yet, one, two) = sync_loop_counts ticks in (none_yet, none_yet, none_yet)
sync_loop_counts (false ∷ ticks) =
    let (none_yet, one, two) = sync_loop_counts ticks in
    (one, two ∙ sym (absorb ticks (three_failures ticks)), refl)

-- `syncRouterLoop` goes on to reconnect exactly when three ticks in a row fail, and then it does
-- so.
pub sync_loop-three_failures : (ticks : List Bool) → sync_loop 0 ticks ≡ three_failures ticks
sync_loop-three_failures ticks = (sync_loop_counts ticks).0

fib-fibonacci : (tries : ℕ) → tries < 91 → fib (tries + 1) ≡ pos (fibonacci (tries + 2))
unfolding fib
fib-fibonacci tries h =
    let some_tries : leb (tries + 1) 0 ≡ false = ground arith in
    let rounds : tries + 1 - 1 ≡ tries = omega arith in
    let last : suc (suc (tries + 0)) ≡ tries + 2 = omega arith in
    rw (some_tries, rounds)
      (fib_loop-fibonacci tries 0 (omega arith) ∙ ap (λ x. pos (fibonacci x)) last)

-- After fewer than 91 failed tries, `reconnectLoop` waits as many seconds as the Fibonacci number
-- of the tries, and 30 at most; its `time.Duration` does not overflow.
pub sleeping-fibonacci :
    (tries : ℕ)
    → tries < 91
    → (next_interval tries ≡ pos (at_most_30 (fibonacci (tries + 2))))
      × (sleeping tries ≡ pos (at_most_30 (fibonacci (tries + 2)) * 1000000000))
unfolding next_interval sleeping
sleeping-fibonacci tries h =
    let number = fibonacci (tries + 2) in
    let interval =
      ap (λ i. if ltb_ℤ (pos 30) i then pos 30 else i) (fib-fibonacci tries h) ∙ capped number in
    let small : at_most_30 number ≤ 30 = ground arith in
    (
      interval,
      ap (λ i. int64 (int64 i *ℤ pos 1000000000)) interval
          ∙ ap (λ i. int64 (i *ℤ pos 1000000000))
              (int64-pos (at_most_30 number) (omega (arith, small)))
          ∙ ap int64 (*ℤ_pos (at_most_30 number) 1000000000)
          ∙ int64-pos (at_most_30 number * 1000000000) (omega (arith, small)),
    )
  where
    capped : (n : ℕ) → (if ltb_ℤ (pos 30) (pos n) then pos 30 else pos n) ≡ pos (at_most_30 n)
    capped n = ground arith
