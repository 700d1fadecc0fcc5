-- ===== src/SessionQuic/Chunks.antt =====
-- How `Send` of common/session/session_quic.go cuts a message into fragments.
use go_vnet.Base.{
  ℕ, zero, suc, ◌+◌, ◌-◌, ◌*◌, ◌%◌, ◌^◌, ◌≤◌, ◌<◌, ◌≡◌, refl, sym, ap, ◌∙◌, inl, inr, some, List,
  [], ◌∷◌, ◌++◌, append-nil, arith, length, length-drop, take, drop, take-append-drop, get_elem?,
  ltb, ltb→lt, Bool-cases,
}
use go_vnet.SessionQuic.{fragment_data, fragment_count_of}
use go_vnet.SessionQuic.Slots.{concat}

-- so many fragments from one on
abbrev pub chunks : List ℕ → ℕ → ℕ → List (List ℕ)
chunks buf i zero = []
chunks buf i (suc n) = fragment_data buf i ∷ chunks buf (i + 1) n

pub length-chunks : (buf : List ℕ) (i n : ℕ) → length (chunks buf i n) ≡ n
length-chunks buf i zero = refl
length-chunks buf i (suc n) = ap suc (length-chunks buf (i + 1) n)

pub get_elem?-chunks :
    (buf : List ℕ) (i n j : ℕ)
    → j < n
    → get_elem? (chunks buf i n) j ≡ some (fragment_data buf (i + j))
get_elem?-chunks buf i zero j h = absurd (omega arith)
get_elem?-chunks buf i (suc n) zero h =
    let same : i ≡ i + 0 = omega arith in ap (λ k. some (fragment_data buf k)) same
get_elem?-chunks buf i (suc n) (suc j) h =
    let same : i + 1 + j ≡ i + suc j = omega arith in
    get_elem?-chunks buf (i + 1) n j (omega arith) ∙ ap (λ k. some (fragment_data buf k)) same

drop-nil : (n : ℕ) → drop {A = ℕ} n [] ≡ []
drop-nil zero = refl
drop-nil (suc n) = refl

drop-drop : (a b : ℕ) (xs : List ℕ) → drop a (drop b xs) ≡ drop (b + a) xs
drop-drop a zero xs = let same : a ≡ 0 + a = omega arith in ap (λ k. drop k xs) same
drop-drop a (suc b) [] = drop-nil a ∙ sym (drop-nil (suc b + a))
drop-drop a (suc b) (x ∷ xs) =
    let same : suc (b + a) ≡ suc b + a = omega arith in
    drop-drop a b xs ∙ ap (λ k. drop k (x ∷ xs)) same

drop_past : (n : ℕ) (xs : List ℕ) → length xs ≤ n → drop n xs ≡ []
drop_past zero [] h = refl
drop_past zero (x ∷ xs) h = absurd (omega arith)
drop_past (suc n) [] h = refl
drop_past (suc n) (x ∷ xs) h = drop_past n xs (omega arith)

take_past : (n : ℕ) (xs : List ℕ) → length xs ≤ n → take n xs ≡ xs
take_past zero [] h = refl
take_past zero (x ∷ xs) h = absurd (omega arith)
take_past (suc n) [] h = refl
take_past (suc n) (x ∷ xs) h = ap (λ l. x ∷ l) (take_past n xs (omega arith))

-- a fragment, and the bytes behind it
fragment_data-drop :
    (buf : List ℕ) (i : ℕ) → fragment_data buf i ++ drop ((i + 1) * 990) buf ≡ drop (i * 990) buf
unfolding fragment_data
fragment_data-drop buf i = elim (Bool-cases (ltb (length buf) (i * 990 + 990))) [
  | inl short ↦
      let end : length buf < i * 990 + 990 = ltb→lt _ _ short in
      let nothing : drop ((i + 1) * 990) buf ≡ [] =
        drop_past ((i + 1) * 990) buf (omega (arith, end)) in
      let left : length (drop (i * 990) buf) ≤ length buf - i * 990 =
        omega (arith, length-drop (i * 990) buf) in
      rw (short, nothing, append-nil (take (length buf - i * 990) (drop (i * 990) buf)))
        (take_past (length buf - i * 990) (drop (i * 990) buf) left)
  | inr long ↦
      let size : i * 990 + 990 - i * 990 ≡ 990 = omega arith in
      let next : (i + 1) * 990 ≡ i * 990 + 990 = omega arith in
      rw (long, size, next, sym (drop-drop 990 (i * 990) buf))
        (take-append-drop 990 (drop (i * 990) buf))
]

-- The fragments together are the message.
pub concat-chunks :
    (buf : List ℕ) (i n : ℕ)
    → length buf ≤ (i + n) * 990
    → concat (chunks buf i n) ≡ drop (i * 990) buf
concat-chunks buf i zero h = sym (drop_past (i * 990) buf (omega arith))
concat-chunks buf i (suc n) h =
    ap (λ l. fragment_data buf i ++ l) (concat-chunks buf (i + 1) n (omega arith))
    ∙ fragment_data-drop buf i

pub fragment_count_of-enough : (buf : List ℕ) → length buf ≤ (0 + fragment_count_of buf) * 990
unfolding fragment_count_of
fragment_count_of-enough buf = omega arith

pub fragment_count_of-few :
    (buf : List ℕ) → length buf ≤ 65535 * 990 → fragment_count_of buf < 2 ^ 16
unfolding fragment_count_of
fragment_count_of-few buf h = omega arith

pub fragment_count_of-wraps :
    (buf : List ℕ)
    → 65535 * 990 < length buf
    → length buf ≤ 65536 * 990
    → fragment_count_of buf % 2 ^ 16 ≡ 0
unfolding fragment_count_of
fragment_count_of-wraps buf low high = omega arith
