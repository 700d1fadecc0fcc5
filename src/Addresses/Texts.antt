-- ===== src/Addresses/Texts.antt =====
-- common/addresses/ip_pool.go: the dotted text of an address, as a key of the table.
use go_vnet.Base.{
  ℕ, zero, suc, ◌+◌, ◌-◌, ◌*◌, ◌/◌, ◌%◌, ◌^◌, ◌<◌, ◌≤◌, inl, inr, Bool-cases, ◌≡◌, ◌↔◌, refl, ap,
  sym, ◌∙◌, Bool, true, false, ◌&&◌, List, [], ◌∷◌, ◌++◌, arith, leb, ◌==◌, if◌then◌else◌,
}
use native.Mathlib.Decide.{dec_lt}
use mathlib.Core.Path.{subst}
use go_vnet.Router.{Text}
use go_vnet.Router.Cidr.{int_to_string}
use go_vnet.Addresses.{uint32_to_ip, text_eq, contains, delete, before_slash}

-- `p` holds at the `count` numbers from `start` on.
unfoldable pub holds_from : ℕ → ℕ → (ℕ → Bool) → Bool
holds_from zero start p = true
holds_from (suc count) start p = if p start then holds_from count (start + 1) p else false

at-holds_from :
    (count start : ℕ) (p : ℕ → Bool) {n : ℕ}
    → holds_from count start p ≡ true
    → start ≤ n
    → n < start + count
    → p n ≡ true
unfolding holds_from
at-holds_from zero start p every lo hi = absurd (omega arith)
at-holds_from (suc count) start p {n} every lo hi = elim (Bool-cases (p start)) [
  | inr fails ↦ absurd (ground (every, fails, arith))
  | inl first ↦ elim (dec_lt start n) [
    | yes above ↦
        at-holds_from count (start + 1) p (ground (every, first, arith)) (omega arith) (omega arith)
    | no here ↦ subst (λ x. p x ≡ true) (omega arith) first
  ]
]

pub holds_from_lem : (n : ℕ) (p : ℕ → Bool) (x : ℕ) → holds_from n 0 p ≡ true → x < n → p x ≡ true
holds_from_lem n p x every h = at-holds_from n 0 p every (omega arith) (omega arith)

abbrev all_digits : Text → Bool
all_digits [] = true
all_digits (c ∷ s) = leb b'0' c && leb c b'9' && all_digits s

-- The number that a text of digits shows, after the digits of `acc`.
abbrev parse_digits : ℕ → Text → ℕ
parse_digits acc [] = acc
parse_digits acc (c ∷ s) = parse_digits (acc * 10 + (c - b'0')) s

byte_table :
    holds_from 256 0 (λ n. all_digits (int_to_string n) && (parse_digits 0 (int_to_string n) == n))
    ≡ true
unfolding holds_from int_to_string
byte_table = refl

byte_digits : (n : ℕ) → n < 256 → all_digits (int_to_string n) ≡ true
byte_digits n h = ground (arith, holds_from_lem 256 _ n byte_table h)

byte_parses : (n : ℕ) → n < 256 → parse_digits 0 (int_to_string n) ≡ n
byte_parses n h = ground (arith, holds_from_lem 256 _ n byte_table h)

-- Texts of digits before a mark that is no digit can be told apart from what follows.
split_at_mark :
    (mark : ℕ) (s t r q : Text)
    → mark < b'0'
    → all_digits s ≡ true
    → all_digits t ≡ true
    → s ++ mark ∷ r ≡ t ++ mark ∷ q
    → (s ≡ t) × (r ≡ q)
split_at_mark mark [] [] r q low hs ht e = (refl, cc)
split_at_mark mark [] (c ∷ t) r q low hs ht e = absurd (ground (arith, e))
split_at_mark mark (c ∷ s) [] r q low hs ht e = absurd (ground (arith, e))
split_at_mark mark (c ∷ s) (d ∷ t) r q low hs ht e =
    let (same, rest) =
      split_at_mark mark s t r q low (ground (arith, hs)) (ground (arith, ht)) (cc) in
    (cc, rest)

int_to_string-injective : (m n : ℕ) → m < 256 → n < 256 → int_to_string m ≡ int_to_string n → m ≡ n
int_to_string-injective m n hm hn e =
    sym (byte_parses m hm) ∙ ap (parse_digits 0) e ∙ byte_parses n hn

cut_byte :
    (a b : ℕ) (r q : Text)
    → a < 256
    → b < 256
    → int_to_string a ++ b'.' ∷ r ≡ int_to_string b ++ b'.' ∷ q
    → (a ≡ b) × (r ≡ q)
cut_byte a b r q ha hb e =
    let (same, rest) =
      split_at_mark b'.' (int_to_string a) (int_to_string b) r q (omega arith) (byte_digits a ha)
        (byte_digits b hb) e in
    (int_to_string-injective a b ha hb same, rest)

abbrev quad : ℕ → ℕ → ℕ → ℕ → Text
quad a b c d =
    int_to_string a
    ++ b'.' ∷ (int_to_string b ++ b'.' ∷ (int_to_string c ++ b'.' ∷ int_to_string d))

abbrev pair_tail : ℕ → ℕ → Text
pair_tail c d = int_to_string c ++ b'.' ∷ int_to_string d

quad-injective :
    (a b c d a' b' c' d' : ℕ)
    → (a < 256) × (b < 256) × (c < 256) × (d < 256)
    → (a' < 256) × (b' < 256) × (c' < 256) × (d' < 256)
    → quad a b c d ≡ quad a' b' c' d'
    → (a ≡ a') × (b ≡ b') × (c ≡ c') × (d ≡ d')
quad-injective a b c d a' b' c' d' h h' e =
    let (ea, e1) =
      cut_byte a a' (int_to_string b ++ b'.' ∷ pair_tail c d)
        (int_to_string b' ++ b'.' ∷ pair_tail c' d') h.0 h'.0 e in
    let (eb, e2) = cut_byte b b' (pair_tail c d) (pair_tail c' d') h.1 h'.1 e1 in
    let (ec, ed) = cut_byte c c' (int_to_string d) (int_to_string d') h.2 h'.2 e2 in
    (ea, eb, ec, int_to_string-injective d d' h.3 h'.3 ed)

pub uint32_to_ip-injective :
    (x y : ℕ) → x < 2 ^ 32 → y < 2 ^ 32 → uint32_to_ip x ≡ uint32_to_ip y → x ≡ y
unfolding uint32_to_ip
uint32_to_ip-injective x y hx hy e =
    let same =
      quad-injective (x / 2 ^ 24 % 256) (x / 2 ^ 16 % 256) (x / 2 ^ 8 % 256) (x % 256)
        (y / 2 ^ 24 % 256) (y / 2 ^ 16 % 256) (y / 2 ^ 8 % 256) (y % 256) (omega arith)
        (omega arith) e in
    omega (arith, same)

abbrev no_slash : Text → Bool
no_slash [] = true
no_slash (c ∷ s) = if c == b'/' then false else no_slash s

no_slash-append : (s t : Text) → no_slash s ≡ true → no_slash t ≡ true → no_slash (s ++ t) ≡ true
no_slash-append [] t hs ht = ht
no_slash-append (c ∷ s) t hs ht = ground (arith, no_slash-append s t)

no_slash_digits : (s : Text) → all_digits s ≡ true → no_slash s ≡ true
no_slash_digits [] h = refl
no_slash_digits (c ∷ s) h = ground (arith, no_slash_digits s)

before_slash_plain : (s r : Text) → no_slash s ≡ true → before_slash (s ++ b'/' ∷ r) ≡ s
before_slash_plain [] r h = refl
before_slash_plain (c ∷ s) r h = ground (arith, before_slash_plain s r)

no_slash_byte : (n : ℕ) → n < 256 → no_slash (int_to_string n) ≡ true
no_slash_byte n h = no_slash_digits (int_to_string n) (byte_digits n h)

no_slash-quad :
    (a b c d : ℕ) → (a < 256) × (b < 256) × (c < 256) × (d < 256) → no_slash (quad a b c d) ≡ true
no_slash-quad a b c d h = no_slash-append (int_to_string a) _ (no_slash_byte a h.0) (
    no_slash-append (int_to_string b) _ (no_slash_byte b h.1)
      (no_slash-append (int_to_string c) _ (no_slash_byte c h.2) (no_slash_byte d h.3)))

-- What `ReleaseIP` and `IsAllocated` cut from an assigned text is the address.
pub before_slash-uint32_to_ip :
    (x : ℕ) (r : Text) → before_slash (uint32_to_ip x ++ b'/' ∷ r) ≡ uint32_to_ip x
unfolding uint32_to_ip
before_slash-uint32_to_ip x r =
    before_slash_plain _ r (
      no_slash-quad (x / 2 ^ 24 % 256) (x / 2 ^ 16 % 256) (x / 2 ^ 8 % 256) (x % 256) (omega arith))

pub text_eq_iff : (s t : Text) → (text_eq s t ≡ true) ↔ (s ≡ t)
text_eq_iff [] [] = (λ _. refl, λ _. refl)
text_eq_iff [] (b ∷ t) = (λ h. cc, λ h. cc)
text_eq_iff (a ∷ s) [] = (λ h. cc, λ h. cc)
text_eq_iff (a ∷ s) (b ∷ t) =
    (λ h. ground (arith, text_eq_iff s t), λ h. ground (arith, text_eq_iff s t))

pub text_eq_refl : (s : Text) → text_eq s s ≡ true
text_eq_refl s = (text_eq_iff s s).1 refl

pub contains-delete :
    (s t : Text) (xs : List Text)
    → contains s (delete t xs) ≡ (if text_eq s t then false else contains s xs)
contains-delete s t [] = ground arith
contains-delete s t (x ∷ xs) =
    ground (arith, text_eq_iff s t, text_eq_iff t x, text_eq_iff s x, contains-delete s t xs)
