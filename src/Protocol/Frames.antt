-- ===== src/Protocol/Frames.antt =====
-- Frames of common/protocol/protocol.go on the stream.
use mathlib.Core.Path.{subst}
use go_vnet.Base.{
  ℕ, ◌+◌, ◌%◌, ◌<◌, ◌≤◌, ◌≡◌, refl, ap, true, false, List, [], ◌∷◌, ◌++◌, append_assoc, arith,
  length, length-append, take, drop, ltb,
}
use go_vnet.Protocol.{
  done, TransportOptions, bytes_eq, put_uint16, uint16, with_header, read_full, frame_bounds,
  read_frame,
}

pub bytes_eq_refl : (s : List ℕ) → bytes_eq s s ≡ true
bytes_eq_refl [] = refl
bytes_eq_refl (a ∷ s) = ground (arith, bytes_eq_refl s)

pub uint16-put_uint16 : (n : ℕ) (rest : List ℕ) → n < 65536 → uint16 (put_uint16 n ++ rest) ≡ n
uint16-put_uint16 n rest h = omega arith

pub take-append : (s t : List ℕ) → take (length s) (s ++ t) ≡ s
take-append [] t = refl
take-append (a ∷ s) t = ap (λ r. a ∷ r) (take-append s t)

pub drop-append : (s t : List ℕ) → drop (length s) (s ++ t) ≡ t
drop-append [] t = refl
drop-append (a ∷ s) t = drop-append s t

pub read_full-append : (s t : List ℕ) → read_full (length s) (s ++ t) ≡ done (s, t)
read_full-append s t =
    let enough : ltb (length (s ++ t)) (length s) ≡ false = ground (arith, length-append s t) in
    rw (enough, take-append s t, drop-append s t) refl

pub read_full-at : (n : ℕ) (s t : List ℕ) → length s ≡ n → read_full n (s ++ t) ≡ done (s, t)
read_full-at n s t e = subst (λ k. read_full k (s ++ t) ≡ done (s, t)) e (read_full-append s t)

pub frame_bounds-fit : (n : ℕ) → n ≤ 65528 → frame_bounds n ≡ done tt
frame_bounds-fit n h = let fits : ltb ((7 + n) % 65536) 7 ≡ false = ground arith in rw fits refl

pub read_frame-frame :
    (o : TransportOptions) (typ : ℕ) (payload rest : List ℕ)
    → length o.magic ≡ 4
    → length payload ≤ 65528
    → read_frame o ((o.magic ++ with_header typ payload) ++ rest) ≡ done ((typ, payload), rest)
unfolding read_frame with_header
read_frame-frame o typ payload rest four fits =
    rw
      (
        append_assoc o.magic (with_header typ payload) rest,
        read_full-at 4 o.magic (with_header typ payload ++ rest) four,
        bytes_eq_refl o.magic,
        read_full-at 3 (typ ∷ put_uint16 (length payload)) (payload ++ rest) refl,
        uint16-put_uint16 (length payload) [] (omega arith),
        frame_bounds-fit (length payload) fits,
        read_full-append payload rest,
      )
      refl
