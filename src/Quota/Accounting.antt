-- ===== src/Quota/Accounting.antt =====
-- common/quota/quota.go: what `AddUsage` adds and what `CommitUsage` submits.
use go_vnet.Base.{◌≡◌, refl, sym, ap, inl, inr, true, false, List, [], ◌∷◌, arith, Bool-cases}
use mathlib.Core.Path.{subst}
use go_vnet.Base.Int.{ℤ, pos, negsuc, ◌+ℤ◌, +ℤ_parts}
use go_vnet.Base.Int64.{word, signed, int64, word-+ℤ, word-int64}
use go_vnet.Quota.{
  Quota, AddResult, added, quota_exceeded, is_zero, is_exceeded, commit_usage, add_usage,
}

abbrev pub total : List ℤ → ℤ
total [] = pos 0
total (a ∷ rest) = a +ℤ total rest

-- the calls on a quota
pub data Call : Type 0 where
  add : ℤ → Call
  commit : Call

-- the quota after a call, and what the call took of the user's value
abbrev pub call : Call → Quota → Quota
call (add v) q = (add_usage v q).0
call commit q = (commit_usage q).0

abbrev pub if_added : AddResult → ℤ → ℤ
if_added added v = v
if_added quota_exceeded v = pos 0

abbrev pub accepted : Call → Quota → ℤ
accepted (add v) q = if_added (add_usage v q).1 v
accepted commit q = pos 0

abbrev pub run : List Call → Quota → Quota
run [] q = q
run (c ∷ cs) q = run cs (call c q)

abbrev pub accepted_in : List Call → Quota → List ℤ
accepted_in [] q = []
accepted_in (c ∷ cs) q = accepted c q ∷ accepted_in cs (call c q)

-- what was submitted and what the counter holds
abbrev pub accounted : Quota → ℤ
accounted q = total q.submitted +ℤ q.usage

commit_usage-accounted : (q : Quota) → word (accounted (commit_usage q).0) ≡ word (accounted q)
unfolding commit_usage
commit_usage-accounted q = elim (Bool-cases (is_zero q.usage)) [
  | inl zero_usage ↦ rw zero_usage refl
  | inr some_usage ↦ rw some_usage moved
]
  where
    moved : word (q.usage +ℤ total q.submitted +ℤ pos 0) ≡ word (accounted q)
    moved = omega (
      arith,
      +ℤ_parts (q.usage +ℤ total q.submitted) (pos 0),
      +ℤ_parts q.usage (total q.submitted),
      +ℤ_parts (total q.submitted) q.usage,
    )

-- `add_usage`, branch by branch
pub add_usage_nothing : (v : ℤ) (q : Quota) → is_zero v ≡ true → add_usage v q ≡ (q, added)
unfolding add_usage
add_usage_nothing v q nothing = rw nothing refl

pub add_usage_over :
    (v : ℤ) (q : Quota)
    → is_zero v ≡ false
    → is_exceeded q ≡ true
    → add_usage v q ≡ ((commit_usage q).0, quota_exceeded)
unfolding add_usage
add_usage_over v q something over = rw (something, over) refl

pub add_usage_under :
    (v : ℤ) (q : Quota)
    → is_zero v ≡ false
    → is_exceeded q ≡ false
    → add_usage v q ≡ (record q { usage = int64 (q.usage +ℤ v) }, added)
unfolding add_usage
add_usage_under v q something under = rw (something, under) refl

pub is_zero_parts : (v : ℤ) → is_zero v ≡ true → v ≡ pos 0
is_zero_parts (pos n) h = ground arith
is_zero_parts (negsuc n) h = cc

abbrev Moves : Quota → ℤ → Quota × AddResult → Type 0
Moves q v r = word (accounted r.0) ≡ word (accounted q +ℤ if_added r.1 v)

add_usage-Moves : (v : ℤ) (q : Quota) → Moves q v (add_usage v q)
add_usage-Moves v q = elim (Bool-cases (is_zero v)) [
  | inl nothing ↦ subst (Moves q v) (sym (add_usage_nothing v q nothing)) (
      subst (λ w. word (accounted q) ≡ word (accounted q +ℤ w)) (sym (is_zero_parts v nothing))
        same)
  | inr something ↦ elim (Bool-cases (is_exceeded q)) [
    | inl over ↦
        subst (Moves q v) (sym (add_usage_over v q something over))
          (omega (arith, commit_usage-accounted q, +ℤ_parts (accounted q) (pos 0)))
    | inr under ↦ subst (Moves q v) (sym (add_usage_under v q something under)) grown
  ]
]
  where
    same : word (accounted q) ≡ word (accounted q +ℤ pos 0)
    same = omega (arith, +ℤ_parts (accounted q) (pos 0))

    grown : word (total q.submitted +ℤ int64 (q.usage +ℤ v)) ≡ word (accounted q +ℤ v)
    grown = omega (
      arith,
      word-+ℤ (total q.submitted) (int64 (q.usage +ℤ v)),
      word-int64 (q.usage +ℤ v),
      word-+ℤ q.usage v,
      word-+ℤ (accounted q) v,
      word-+ℤ (total q.submitted) q.usage,
    )

call-accounted :
    (c : Call) (q : Quota) → word (accounted (call c q)) ≡ word (accounted q +ℤ accepted c q)
call-accounted (add v) q = add_usage-Moves v q
call-accounted commit q = omega (arith, commit_usage-accounted q, +ℤ_parts (accounted q) (pos 0))

-- Whatever the calls of `AddUsage` and `CommitUsage` are, the values that were submitted and the
-- counter together grow by the sum of the values that `AddUsage` accepted, in the 64 bits of an
-- int64: nothing is submitted twice, and a rejected value is not counted.
pub run-accounted :
    (cs : List Call) (q : Quota)
    → int64 (accounted (run cs q)) ≡ int64 (accounted q +ℤ total (accepted_in cs q))
unfolding int64
run-accounted cs q = ap signed (words cs q)
  where
    words :
        (cs : List Call) (q : Quota)
        → word (accounted (run cs q)) ≡ word (accounted q +ℤ total (accepted_in cs q))
    words [] q = omega (arith, +ℤ_parts (accounted q) (pos 0))
    words (c ∷ cs) q = omega (
      arith,
      words cs (call c q),
      call-accounted c q,
      word-+ℤ (accounted q) (accepted c q +ℤ total (accepted_in cs (call c q))),
      word-+ℤ (accepted c q) (total (accepted_in cs (call c q))),
      word-+ℤ (accounted (call c q)) (total (accepted_in cs (call c q))),
      word-+ℤ (accounted q) (accepted c q),
    )

-- A second `CommitUsage` right after the first returns 0 and submits nothing.
pub commit_usage-commit_usage :
    (q : Quota) → commit_usage (commit_usage q).0 ≡ ((commit_usage q).0, pos 0)
unfolding commit_usage
commit_usage-commit_usage q = elim (Bool-cases (is_zero q.usage)) [
  | inl none_left ↦ rw (none_left, none_left) refl
  | inr some_left ↦ rw some_left refl
]
