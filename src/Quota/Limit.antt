-- ===== src/Quota/Limit.antt =====
-- How far the counter may pass its limit: common/quota/quota.go, `AddUsage`.
use go_vnet.Base.{
  ℕ, ◌+◌, ◌-◌, ◌^◌, ◌≤◌, ◌<◌, ◌≡◌, refl, sym, ap, ◌∙◌, ltb→le, lt→ltb, inl, inr, true, false, List,
  [], ◌∷◌, arith, Bool-cases, ltb,
}
use mathlib.Core.Path.{subst, ap₂}
use go_vnet.Base.Int.{ℤ, pos, negsuc, ◌+ℤ◌}
use go_vnet.Base.Int64.{int64, int64-pos, +ℤ_pos}
use go_vnet.Quota.{
  Quota, AddResult, added, quota_exceeded, is_zero, is_exceeded, commit_usage, add_usage,
}
use go_vnet.Quota.Accounting.{
  Call, add, commit, call, run, accepted_in, if_added, is_zero_parts, add_usage_nothing,
  add_usage_over, add_usage_under,
}

-- A quota of limit `m` on a user that has used `u` and counts `c`, all of them sizes.
abbrev pub Holds : ℕ → ℕ → ℕ → Quota → Type 0
Holds m u c q = (q.max_limit ≡ pos m) × (q.used ≡ pos u) × (q.usage ≡ pos c)

pub is_exceeded-Holds :
    {m u c : ℕ} (q : Quota) → Holds m u c q → c + u < 2 ^ 63 → is_exceeded q ≡ ltb m (c + u)
unfolding is_exceeded
is_exceeded-Holds {m} {u} {c} q (hm, hu, hc) small =
    rw (hm, hu, hc, +ℤ_pos c u, int64-pos (c + u) small) (ground arith)

commit_usage-Holds : {m u c : ℕ} (q : Quota) → Holds m u c q → Holds m u 0 (commit_usage q).0
unfolding commit_usage
commit_usage-Holds q (hm, hu, hc) = elim (Bool-cases (is_zero q.usage)) [
  | inl nothing ↦ rw nothing (hm, hu, is_zero_parts q.usage nothing)
  | inr something ↦ rw something (hm, hu, refl)
]

commit_usage_empty : (q : Quota) → is_zero q.usage ≡ true → commit_usage q ≡ (q, pos 0)
unfolding commit_usage
commit_usage_empty q empty = rw empty refl

commit_usage_limit : (q : Quota) → (commit_usage q).0.max_limit ≡ q.max_limit
unfolding commit_usage
commit_usage_limit q = ground arith

-- The counter has passed what is left of the limit by at most `s`.
abbrev pub Within : ℕ → ℕ → ℕ → Quota → Type 0
Within m u s q = (c : ℕ) × Holds m u c q × (c ≤ m - u + s)

-- Every value that is added is at most `s`.
abbrev pub AtMost : ℕ → List Call → Type 0
AtMost s [] = Unit
AtMost s (add v ∷ cs) = ((w : ℕ) × (v ≡ pos w) × (w ≤ s)) × AtMost s cs
AtMost s (commit ∷ cs) = AtMost s cs

add_usage-Within :
    {m u s : ℕ} (w : ℕ) (q : Quota)
    → w ≤ s
    → m + u + s < 2 ^ 63
    → Within m u s q
    → Within m u s (add_usage (pos w) q).0
add_usage-Within {m} {u} {s} w q hw small (c, h, bound) = elim (Bool-cases (is_zero (pos w))) [
  | inl nothing ↦ after (add_usage_nothing (pos w) q nothing) (c, h, bound)
  | inr something ↦ elim (Bool-cases (ltb m (c + u))) [
    | inl over ↦
        after (add_usage_over (pos w) q something (exceeded ∙ over))
          (0, commit_usage-Holds q h, omega arith)
    | inr under ↦
        after (add_usage_under (pos w) q something (exceeded ∙ under)) (
          c + w,
          (h.0, h.1, summed (ltb→le m (c + u) under)),
          omega (arith, ltb→le m (c + u) under),
        )
  ]
]
  where
    exceeded : is_exceeded q ≡ ltb m (c + u)
    exceeded = is_exceeded-Holds q h (omega arith)

    after :
        {r : Quota × AddResult}
        → add_usage (pos w) q ≡ r
        → Within m u s r.0
        → Within m u s (add_usage (pos w) q).0
    after e k = subst (λ r. Within m u s r.0) (sym e) k

    summed : c + u ≤ m → int64 (q.usage +ℤ pos w) ≡ pos (c + w)
    summed le = rw (h.2, +ℤ_pos c w) (int64-pos (c + w) (omega arith))

-- Where the values are sizes of at most `s`, and limit and sizes are far from the end of an int64,
-- the counter of a fresh quota never passes what is left of the limit by more than `s`: the check
-- comes before the addition, so one value may overshoot, and only one.
pub run-Within :
    {m u : ℕ} (s : ℕ) (cs : List Call) (q : Quota)
    → m + u + s < 2 ^ 63
    → AtMost s cs
    → Within m u s q
    → Within m u s (run cs q)
run-Within s [] q small all h = h
run-Within s (commit ∷ cs) q small all (c, h, bound) =
    run-Within s cs (commit_usage q).0 small all (0, commit_usage-Holds q h, omega arith)
run-Within {m} {u} s (add v ∷ cs) q small ((w, e, le), all) h =
    run-Within s cs (add_usage v q).0 small all
      (subst (λ x. Within m u s (add_usage x q).0) (sym e) (add_usage-Within w q le small h))

-- A quota that has passed its limit by the counter alone rejects the next value, submits the
-- counter and is open again: it accepts the value after that, as the used size that it compares
-- with is still the one that was loaded.
pub add_usage-reopens :
    {m u c : ℕ} (v w : ℕ) (q : Quota)
    → Holds m u c q
    → u ≤ m
    → m < c + u
    → c + u < 2 ^ 63
    → w + u < 2 ^ 63
    → 0 < v
    → 0 < w
    → (q' q'' : Quota) × (add_usage (pos v) q ≡ (q', quota_exceeded))
      × (add_usage (pos w) q' ≡ (q'', added))
      × Holds m u w q''
add_usage-reopens {m} {u} {c} v w q h fits over small small' pv pw =
    let again = commit_usage-Holds q h in
    (
      (commit_usage q).0,
      record (commit_usage q).0 { usage = int64 ((commit_usage q).0.usage +ℤ pos w) },
      add_usage_over (pos v) q (ground arith) (is_exceeded-Holds q h small ∙ lt→ltb m (c + u) over),
      add_usage_under (pos w) (commit_usage q).0 (ground arith)
          (is_exceeded-Holds (commit_usage q).0 again (omega arith) ∙ ground arith),
      (
        again.0,
        again.1,
        rw (again.2, +ℤ_pos 0 w) (int64-pos (0 + w) (omega arith) ∙ ap pos (omega arith)),
      ),
    )

-- A quota whose loaded use is over the limit stays as it is, with nothing counted and nothing
-- submitted, whatever the calls.
pub run_exhausted :
    {m u : ℕ} (cs : List Call) (q : Quota) → Holds m u 0 q → m < u → u < 2 ^ 63 → run cs q ≡ q
run_exhausted [] q h over small = refl
run_exhausted {m} {u} (c ∷ cs) q h over small =
    ap (run cs) (stays c) ∙ run_exhausted cs q h over small
  where
    empty : is_zero q.usage ≡ true
    empty = rw (h.2) refl

    committed : (commit_usage q).0 ≡ q
    committed = ap (λ r. r.0) (commit_usage_empty q empty)

    stays : (c : Call) → call c q ≡ q
    stays commit = committed
    stays (add v) = elim (Bool-cases (is_zero v)) [
      | inl nothing ↦ ap (λ r. r.0) (add_usage_nothing v q nothing)
      | inr something ↦
          ap (λ r. r.0)
            (add_usage_over v q something
              (is_exceeded-Holds q h (omega arith) ∙ lt→ltb m (0 + u) (omega arith)))
          ∙ committed
    ]

is_exceeded-unlimited : (q : Quota) → q.max_limit ≡ negsuc 0 → is_exceeded q ≡ false
unfolding is_exceeded
is_exceeded-unlimited q h = rw h (ground arith)

-- the values that a sequence of calls adds
abbrev pub values : List Call → List ℤ
values [] = []
values (add v ∷ cs) = v ∷ values cs
values (commit ∷ cs) = pos 0 ∷ values cs

-- A quota with the limit -1 accepts every value of every sequence of calls.
pub accepted_in-unlimited :
    (cs : List Call) (q : Quota) → q.max_limit ≡ negsuc 0 → accepted_in cs q ≡ values cs
accepted_in-unlimited [] q h = refl
accepted_in-unlimited (commit ∷ cs) q h =
    ap (λ l. pos 0 ∷ l) (accepted_in-unlimited cs (commit_usage q).0 (commit_usage_limit q ∙ h))
accepted_in-unlimited (add v ∷ cs) q h =
    let (q', e, limit) = accepts in
    ap₂ ◌∷◌ (ap (λ r. if_added r.1 v) e)
      (accepted_in-unlimited cs (add_usage v q).0 (ap (λ r. r.0.max_limit) e ∙ limit))
  where
    accepts : (q' : Quota) × (add_usage v q ≡ (q', added)) × (q'.max_limit ≡ negsuc 0)
    accepts = elim (Bool-cases (is_zero v)) [
      | inl nothing ↦ (q, add_usage_nothing v q nothing, h)
      | inr something ↦ (_, add_usage_under v q something (is_exceeded-unlimited q h), h)
    ]
