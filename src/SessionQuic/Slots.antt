-- ===== src/SessionQuic/Slots.antt =====
-- The fragments of a partial message, common/session/session_quic.go.
use mathlib.Core.Path.{ap₂}
use mathlib.Core.Option.{some-injective}
use go_vnet.Base.{
  ℕ, zero, suc, ◌+◌, ◌≤◌, ◌<◌, ◌≡◌, refl, sym, ap, true, false, Option, none, some, List, [], ◌∷◌,
  ◌++◌, arith, length, get_elem?, set, replicate,
}
use go_vnet.SessionQuic.{assemble, is_missing}

abbrev pub concat : List (List ℕ) → List ℕ
concat [] = []
concat (f ∷ fs) = f ++ concat fs

-- the number of fragments that are there
abbrev pub present : List (Option (List ℕ)) → ℕ
present [] = 0
present (none ∷ slots) = present slots
present (some f ∷ slots) = suc (present slots)

-- each fragment that is there is the one of the message
abbrev pub IsPartOf : List (List ℕ) → List (Option (List ℕ)) → Type 0
IsPartOf [] [] = Unit
IsPartOf [] (slot ∷ slots) = ⊥
IsPartOf (f ∷ fs) [] = ⊥
IsPartOf (f ∷ fs) (none ∷ slots) = IsPartOf fs slots
IsPartOf (f ∷ fs) (some g ∷ slots) = (g ≡ f) × IsPartOf fs slots

pub present-le : (slots : List (Option (List ℕ))) → present slots ≤ length slots
present-le [] = omega arith
present-le (none ∷ slots) = omega (arith, present-le slots)
present-le (some f ∷ slots) = omega (arith, present-le slots)

pub replicate-IsPartOf : (fs : List (List ℕ)) → IsPartOf fs (replicate (length fs) none)
replicate-IsPartOf [] = tt
replicate-IsPartOf (f ∷ fs) = replicate-IsPartOf fs

pub present-replicate : (n : ℕ) → present (replicate n none) ≡ 0
present-replicate zero = refl
present-replicate (suc n) = present-replicate n

pub length-IsPartOf :
    (fs : List (List ℕ)) (slots : List (Option (List ℕ)))
    → IsPartOf fs slots
    → length slots ≡ length fs
length-IsPartOf [] [] h = refl
length-IsPartOf [] (slot ∷ slots) h = absurd h
length-IsPartOf (f ∷ fs) [] h = absurd h
length-IsPartOf (f ∷ fs) (none ∷ slots) h = ap suc (length-IsPartOf fs slots h)
length-IsPartOf (f ∷ fs) (some g ∷ slots) h = ap suc (length-IsPartOf fs slots h.1)

pub set-IsPartOf :
    (fs : List (List ℕ)) (slots : List (Option (List ℕ))) (i : ℕ) (f : List ℕ)
    → IsPartOf fs slots
    → get_elem? fs i ≡ some f
    → IsPartOf fs (set slots i (some f))
set-IsPartOf [] [] i f h e = tt
set-IsPartOf [] (slot ∷ slots) i f h e = absurd h
set-IsPartOf (g ∷ fs) [] i f h e = absurd h
set-IsPartOf (g ∷ fs) (none ∷ slots) zero f h e = (sym (some-injective _ _ e), h)
set-IsPartOf (g ∷ fs) (some x ∷ slots) zero f h e = (sym (some-injective _ _ e), h.1)
set-IsPartOf (g ∷ fs) (none ∷ slots) (suc i) f h e = set-IsPartOf fs slots i f h e
set-IsPartOf (g ∷ fs) (some x ∷ slots) (suc i) f h e = (h.0, set-IsPartOf fs slots i f h.1 e)

pub present-set :
    (slots : List (Option (List ℕ))) (i : ℕ) (f : List ℕ)
    → is_missing (get_elem? slots i) ≡ true
    → present (set slots i (some f)) ≡ present slots + 1
unfolding is_missing
present-set [] i f h = cc
present-set (none ∷ slots) zero f h = omega arith
present-set (some x ∷ slots) zero f h = cc
present-set (none ∷ slots) (suc i) f h = present-set slots i f h
present-set (some x ∷ slots) (suc i) f h = omega (arith, present-set slots i f h)

-- a fragment that is there stays there
pub is_missing-set :
    (slots : List (Option (List ℕ))) (i j : ℕ) (f : List ℕ)
    → is_missing (get_elem? slots j) ≡ false
    → is_missing (get_elem? (set slots i (some f)) j) ≡ false
unfolding is_missing
is_missing-set [] i j f h = refl
is_missing-set (slot ∷ slots) zero zero f h = refl
is_missing-set (slot ∷ slots) zero (suc j) f h = h
is_missing-set (slot ∷ slots) (suc i) zero f h = h
is_missing-set (slot ∷ slots) (suc i) (suc j) f h = is_missing-set slots i j f h

pub is_missing-set_self :
    (slots : List (Option (List ℕ))) (i : ℕ) (f : List ℕ)
    → is_missing (get_elem? (set slots i (some f)) i) ≡ false
unfolding is_missing
is_missing-set_self [] i f = refl
is_missing-set_self (slot ∷ slots) zero f = refl
is_missing-set_self (slot ∷ slots) (suc i) f = is_missing-set_self slots i f

pub present-full :
    (slots : List (Option (List ℕ)))
    → ((j : ℕ) → j < length slots → is_missing (get_elem? slots j) ≡ false)
    → present slots ≡ length slots
unfolding is_missing
present-full [] h = refl
present-full (none ∷ slots) h = let first : true ≡ false = h 0 (omega arith) in cc
present-full (some f ∷ slots) h = ap suc (present-full slots λ j l. h (suc j) (omega arith))

-- all fragments together are the message
pub assemble-full :
    (fs : List (List ℕ)) (slots : List (Option (List ℕ)))
    → IsPartOf fs slots
    → present slots ≡ length slots
    → assemble slots ≡ concat fs
unfolding assemble
assemble-full [] [] h full = refl
assemble-full [] (slot ∷ slots) h full = absurd h
assemble-full (f ∷ fs) [] h full = absurd h
assemble-full (f ∷ fs) (none ∷ slots) h full = absurd (omega (arith, present-le slots))
assemble-full (f ∷ fs) (some g ∷ slots) h full =
    ap₂ (λ a b. a ++ b) h.0 (assemble-full fs slots h.1 (omega arith))

pub is_missing-replicate :
    (n i : ℕ) → i < n → is_missing (get_elem? (replicate {A = Option (List ℕ)} n none) i) ≡ true
unfolding is_missing
is_missing-replicate zero i h = absurd (omega arith)
is_missing-replicate (suc n) zero h = refl
is_missing-replicate (suc n) (suc i) h = is_missing-replicate n i (omega arith)
