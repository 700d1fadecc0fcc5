-- ===== src/Addresses/Capacity.antt =====
-- common/addresses/ip_pool.go: the table of a pool against the size of its range.
use native.Mathlib.Decide.{dec_lt}
use go_vnet.Base.{
  ℕ, zero, suc, ◌+◌, ◌^◌, ◌≤◌, ◌<◌, ◌≡◌, inl, inr, refl, ap, sym, ◌∙◌, false, List, [], ◌∷◌, arith,
  Bool-cases, length,
}
use go_vnet.Router.{Text}
use go_vnet.Addresses.{uint32_to_ip, contains, delete, text_eq}
use go_vnet.Addresses.Texts.{text_eq_iff, contains-delete}

-- The table of a pool: no text twice, and each is the text of an address between the first and
-- last.
abbrev pub Distinct : List Text → Type 0
Distinct [] = Unit
Distinct (s ∷ xs) = (contains s xs ≡ false) × Distinct xs

abbrev pub Within : ℕ → ℕ → List Text → Type 0
Within lo n [] = Unit
Within lo n (s ∷ xs) = ((x : ℕ) × (lo ≤ x) × (x < lo + n) × (s ≡ uint32_to_ip x)) × Within lo n xs

pub delete-Distinct : (t : Text) (xs : List Text) → Distinct xs → Distinct (delete t xs)
delete-Distinct t [] h = tt
delete-Distinct t (s ∷ xs) h = elim (Bool-cases (text_eq t s)) [
  | inl same ↦ rw same (delete-Distinct t xs h.1)
  | inr other ↦ rw other (ground (arith, h.0, contains-delete s t xs), delete-Distinct t xs h.1)
]

pub delete-Within :
    (t : Text) (lo n : ℕ) (xs : List Text) → Within lo n xs → Within lo n (delete t xs)
delete-Within t lo n [] h = tt
delete-Within t lo n (s ∷ xs) h = elim (Bool-cases (text_eq t s)) [
  | inl same ↦ rw same (delete-Within t lo n xs h.1)
  | inr other ↦ rw other (h.0, delete-Within t lo n xs h.1)
]

delete_absent : (t : Text) (xs : List Text) → contains t xs ≡ false → delete t xs ≡ xs
delete_absent t [] h = refl
delete_absent t (s ∷ xs) h = ground (arith, delete_absent t xs)

length-delete : (t : Text) (xs : List Text) → Distinct xs → length xs ≤ length (delete t xs) + 1
length-delete t [] h = omega arith
length-delete t (s ∷ xs) h =
    ground (arith, h, text_eq_iff t s, length-delete t xs h.1, delete_absent t xs)

-- Without the text of the last address, the texts lie in the range that is one shorter.
shrink :
    (lo n : ℕ) (xs : List Text)
    → lo + suc n ≤ 2 ^ 32
    → Within lo (suc n) xs
    → Within lo n (delete (uint32_to_ip (lo + n)) xs)
shrink lo n [] fits h = tt
shrink lo n (s ∷ xs) fits ((x, lower, upper, e), h) =
    elim (Bool-cases (text_eq (uint32_to_ip (lo + n)) s)) [
      | inl same ↦ rw same (shrink lo n xs fits h)
      | inr other ↦ rw other ((x, lower, not_last other, e), shrink lo n xs fits h)
    ]
  where
    not_last : text_eq (uint32_to_ip (lo + n)) s ≡ false → x < lo + n
    not_last other = elim (dec_lt x (lo + n)) [
      | yes below ↦ below
      | no there ↦
          let at_end : lo + n ≡ x = omega arith in
          absurd (
            ground
              (arith, other, text_eq_iff (uint32_to_ip (lo + n)) s, ap uint32_to_ip at_end ∙ sym e))
    ]

pub pigeonhole :
    (n lo : ℕ) (xs : List Text) → lo + n ≤ 2 ^ 32 → Distinct xs → Within lo n xs → length xs ≤ n
pigeonhole n lo [] fits d w = omega arith
pigeonhole zero lo (s ∷ xs) fits d ((x, lower, upper, e), w) = absurd (omega arith)
pigeonhole (suc n) lo (s ∷ xs) fits d w =
    let t = uint32_to_ip (lo + n) in
    omega (
      arith,
      length-delete t (s ∷ xs) d,
      pigeonhole n lo (delete t (s ∷ xs)) (omega arith) (delete-Distinct t (s ∷ xs) d)
          (shrink lo n (s ∷ xs) fits w),
    )
