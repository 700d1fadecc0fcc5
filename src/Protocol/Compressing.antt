-- ===== src/Protocol/Compressing.antt =====
-- common/protocol/protocol.go: compression of a message, and what the round trip asks of the
-- codecs.
use go_vnet.Base.{
  ℕ, ◌+◌, ◌-◌, ◌%◌, ◌≤◌, ◌<◌, ◌≡◌, refl, ap, true, false, ◌&&◌, some, List, [], ◌∷◌, ◌++◌, arith,
  length, take, ltb, leb, ◌==◌, Bool-cases, Option-cases, inl, inr, ltb→lt,
}
use go_vnet.Protocol.{
  Outcome, done, failed, decompression_failed, Codec, TransportOptions, put_uint16, uint16,
  with_header, write_raw_message, write_frame, message_room, compress_layer, is_standard,
  inner_message, decompress_layer,
}
use go_vnet.Protocol.Frames.{uint16-put_uint16}

-- what a compressor promises for the buffers of a transport: with 17 bytes to spare it succeeds on
-- a text that is not empty, and its output can be decompressed
abbrev pub CompressorLaw : Codec → Type 0
CompressorLaw c =
    (text : List ℕ) (room : ℕ)
    → 0 < length text
    → length text + 17 ≤ room
    → room ≤ 65535
    → (out : List ℕ) × (c.encode text room ≡ some out) × (c.decode out 65528 ≡ some text)

-- what an encryptor promises for the buffers of a transport: it adds 40 bytes, and its output can
-- be decrypted
abbrev pub EncryptorLaw : Codec → Type 0
EncryptorLaw c =
    (text : List ℕ) (room : ℕ)
    → length text + 40 ≤ room
    → room ≤ 65535
    → (out : List ℕ) × (c.encode text room ≡ some out)
      × (length out ≡ length text + 40)
      × (c.decode out 65528 ≡ some text)

pub record Lawful (o : TransportOptions) : Type 0 where
  pub magic_four : length o.magic ≡ 4
  pub compressor_law : (c : Codec) → o.compressor ≡ some c → CompressorLaw c
  pub encryptor_law : (c : Codec) → o.encryptor ≡ some c → EncryptorLaw c

take_all : (s : List ℕ) → take (length s) s ≡ s
take_all [] = refl
take_all (a ∷ s) = ap (λ r. a ∷ r) (take_all s)

pub inner_message-with_header :
    (typ : ℕ) (payload : List ℕ) (otherwise : Outcome (ℕ × List ℕ))
    → length payload ≤ 65500
    → inner_message (with_header typ payload) otherwise ≡ done (typ, payload)
unfolding inner_message with_header
inner_message-with_header typ payload otherwise fits =
    let size : uint16 (put_uint16 (length payload) ++ payload) ≡ length payload =
      uint16-put_uint16 (length payload) payload (omega arith) in
    let long : ltb (length (typ ∷ put_uint16 (length payload) ++ payload)) 3 ≡ false =
      ground arith in
    let whole : ltb (length (typ ∷ put_uint16 (length payload) ++ payload))
          ((3 + length payload) % 65536)
        ≡ false =
      ground arith in
    let within : ltb 65535 (10 + length payload) ≡ false = ground arith in
    let all : take (length payload) payload ≡ payload = take_all payload in
    rw (long, size, whole, within, all) refl

pub length-with_header :
    (typ : ℕ) (payload : List ℕ) → length (with_header typ payload) ≡ length payload + 3
unfolding with_header
length-with_header typ payload = omega arith

-- `t` and `p` are what is left to encrypt: not yet encrypted, not longer, and decompressed again by
-- `o`.
abbrev Packed : TransportOptions → ℕ → List ℕ → ℕ × List ℕ → Type 0
Packed o typ payload m =
    ((m.0 == 17) ≡ false)
    × (length m.1 ≤ length payload)
    × (decompress_layer o m.0 m.1 ≡ done (typ, payload))

message_room_enough :
    (n : ℕ)
    → n ≤ 65490
    → (room : ℕ) × (message_room n ≡ some room) × (n + 17 ≤ room) × (room ≤ 65535)
unfolding message_room
message_room_enough n h = elim (Bool-cases (ltb (n + 1000) 65535 && leb (n + 17) (65535 - n))) [
  | inl shared ↦ (65535 - n, rw shared refl, ground (arith, shared), omega arith)
  | inr apart ↦ (65528, rw apart refl, omega arith, omega arith)
]

standard_plain : (typ : ℕ) → is_standard typ ≡ true → ((typ == 17) ≡ false) × ((typ == 16) ≡ false)
standard_plain typ h = (ground arith, ground arith)

unpacked :
    (o : TransportOptions) (typ : ℕ) (payload : List ℕ)
    → is_standard typ ≡ true
    → Packed o typ payload (typ, payload)
unfolding decompress_layer
unpacked o typ payload h =
    ((standard_plain typ h).0, omega arith, rw ((standard_plain typ h).1) refl)

decompress-compressed :
    (o : TransportOptions) (c : Codec) (typ : ℕ) (payload out : List ℕ)
    → o.compressor ≡ some c
    → c.decode out 65528 ≡ some (with_header typ payload)
    → length payload ≤ 65500
    → decompress_layer o 16 out ≡ done (typ, payload)
unfolding decompress_layer
decompress-compressed o c typ payload out has decoded fits =
    let small : ltb 65528 (length (with_header typ payload)) ≡ false =
      ground (arith, length-with_header typ payload) in
    rw (has, decoded, small)
      (inner_message-with_header typ payload (failed decompression_failed) fits)

pub compressed :
    (o : TransportOptions) (typ : ℕ) (payload : List ℕ)
    → Lawful o
    → is_standard typ ≡ true
    → length payload ≤ 65485
    → (m : ℕ × List ℕ) × (compress_layer message_room o typ payload ≡ done m)
      × Packed o typ payload m
unfolding compress_layer
compressed o typ payload law h fits = elim (Option-cases o.compressor) [
  | inl absent ↦ ((typ, payload), rw absent refl, unpacked o typ payload h)
  | inr (c, has) ↦ elim (Bool-cases (o.compress && leb o.compress_threshold (length payload))) [
    | inr off ↦ ((typ, payload), rw (has, off) refl, unpacked o typ payload h)
    | inl on ↦
        let (room, given, wide, held) = message_room_enough (3 + length payload) (omega arith) in
        let (out, encoded, decoded) =
          law.compressor_law c has (with_header typ payload) room
            (omega (arith, length-with_header typ payload))
            (omega (arith, length-with_header typ payload)) held in
        elim (Bool-cases (ltb (length out) (length payload))) [
          | inl gain ↦ (
            (16, out),
            rw (has, on, given, encoded, gain) refl,
            (
              refl,
              omega (arith, ltb→lt (length out) (length payload) gain),
              decompress-compressed o c typ payload out has decoded (omega arith),
            ),
          )
          | inr loss ↦
              ((typ, payload), rw (has, on, given, encoded, loss) refl, unpacked o typ payload h)
        ]
  ]
]

pub raw_done :
    (o : TransportOptions) (typ : ℕ) (payload : List ℕ)
    → length payload ≤ 65528
    → write_raw_message o typ payload ≡ done (o.magic ++ with_header typ payload)
unfolding write_raw_message write_frame
raw_done o typ payload fits =
    let accepted : ltb 65530 (length payload) ≡ false = ground arith in
    let held : ltb 65535 (7 + length payload) ≡ false = ground arith in rw (accepted, held) refl
