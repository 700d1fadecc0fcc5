-- ===== src/Requests/Splitting.antt =====
-- common/session/request.go: a text of three parts without dots is split into them again.
use go_vnet.Base.{
  ℕ, ◌≡◌, refl, ap, ◌∙◌, true, false, List, [], ◌∷◌, ◌++◌, arith, ◌==◌, if◌then◌else◌, append_assoc,
}
use go_vnet.Requests.{
  Packages, Error, ok, err, wrong_checksum, dot, bytes_eq, in_first, split, with_checksum,
  checked_parts,
}

abbrev pub Dotless : List ℕ → Type 0
Dotless [] = Unit
Dotless (c ∷ text) = ((c == 46) ≡ false) × Dotless text

pub split-part :
    (part text : List ℕ) → Dotless part → split (part ++ (dot ∷ text)) ≡ part ∷ split text
unfolding split in_first
split-part [] text d = refl
split-part (c ∷ part) text (other, d) = rw (other, split-part part text d) refl

split_last : (part : List ℕ) → Dotless part → split part ≡ part ∷ []
unfolding split in_first
split_last [] d = refl
split_last (c ∷ part) (other, d) = rw (other, split_last part d) refl

bytes_eq_same : (text : List ℕ) → bytes_eq text text ≡ true
bytes_eq_same [] = refl
bytes_eq_same (c ∷ text) = ground (arith, bytes_eq_same text)

-- the parts of a message, whose checksum fits
pub checked_parts-with_checksum :
    {Q R : Type 0} (p : Packages Q R) (e : Error) (a b : List ℕ)
    → Dotless a
    → Dotless b
    → Dotless (p.md5 (a ++ (dot ∷ b)))
    → checked_parts p e (split (with_checksum p (a ++ (dot ∷ b)))) ≡ ok (a, b)
unfolding with_checksum checked_parts
checked_parts-with_checksum p e a b da db dm =
    ap (λ text. checked_parts p e (split text))
      (append_assoc a (dot ∷ b) (dot ∷ p.md5 (a ++ (dot ∷ b))))
    ∙ ap (checked_parts p e) (
        split-part a (b ++ (dot ∷ p.md5 (a ++ (dot ∷ b)))) da
        ∙ ap (λ parts. a ∷ parts)
            (split-part b (p.md5 (a ++ (dot ∷ b))) db
              ∙ ap (λ parts. b ∷ parts) (split_last (p.md5 (a ++ (dot ∷ b))) dm)))
    ∙ ap (λ same. if same then ok (a, b) else err wrong_checksum)
        (bytes_eq_same (p.md5 (a ++ (dot ∷ b))))
