-- ===== src/SessionQuic/Headers.antt =====
-- The header of a fragment, common/session/session_quic.go.
use go_vnet.Base.{
  ℕ, ◌+◌, ◌*◌, ◌/◌, ◌%◌, ◌^◌, ◌<◌, ◌≡◌, refl, false, some, List, ◌++◌, arith, length, ltb, leb,
}
use go_vnet.SessionQuic.{fragment_magic, FragmentHeader, encode, decode_fragment_header}

-- the header that `Send` makes
abbrev pub header : ℕ → ℕ → ℕ → FragmentHeader
header id count i = record {
  magic = fragment_magic;
  message_id = id;
  fragment_index = i;
  fragment_count = count;
}

two_bytes : (n : ℕ) → n < 2 ^ 16 → n / 256 % 256 * 256 + n % 256 ≡ n
two_bytes n h = omega arith

four_bytes :
    (n : ℕ)
    → n < 2 ^ 32
    → n / 2 ^ 24 % 256 * 2 ^ 24 + n / 2 ^ 16 % 256 * 2 ^ 16 + n / 2 ^ 8 % 256 * 2 ^ 8 + n % 256 ≡ n
four_bytes n h = omega arith

-- What `encode` writes in front of a payload, `decodeFragmentHeader` reads: a header of the magic
-- number whose fields fit their widths and whose index is below its count, and the payload.
pub decode_fragment_header-encode :
    (id count i : ℕ) (payload : List ℕ)
    → id < 2 ^ 32
    → count < 2 ^ 16
    → i < count
    → decode_fragment_header (encode (header id count i) ++ payload)
      ≡ some (header id count i, payload)
unfolding decode_fragment_header encode
decode_fragment_header-encode id count i payload small few inside =
    let long : ltb (length (encode (header id count i) ++ payload)) 10 ≡ false = ground arith in
    let below : leb count i ≡ false = ground arith in
    let index : i / 256 % 256 * 256 + i % 256 ≡ i = omega arith in
    rw (long, four_bytes id small, two_bytes count few, index, below) refl
