-- ===== src/Protocol/Roundtrip.antt =====
-- `WriteMessage` and `ReadMessage` of common/protocol/protocol.go, with their layers.
use go_vnet.Protocol.Compressing.{
  Lawful, inner_message-with_header, length-with_header, compressed, raw_done,
}
use go_vnet.Base.{
  ℕ, ◌+◌, ◌-◌, ◌≤◌, ◌≡◌, refl, ◌∙◌, true, false, none, some, List, ◌++◌, arith, length, ltb, leb,
  ◌==◌, if◌then◌else◌, Bool-cases, Option-cases, inl, inr,
}
use go_vnet.Protocol.{
  done, panic, and_then, Codec, TransportOptions, with_header, write_raw_message, write_frame,
  message_room, compress_layer, seal, is_standard, encrypt_layer, write_message, decrypt_layer,
  read_message,
}
use go_vnet.Protocol.Frames.{read_frame-frame}

-- what stands in the frame, and that it is decrypted to `t` and `p`
abbrev Sealed : TransportOptions → ℕ → List ℕ → ℕ × List ℕ → Type 0
Sealed o t p f =
    (encrypt_layer o t p ≡ done (o.magic ++ with_header f.0 f.1))
    × (length f.1 ≤ 65528)
    × (decrypt_layer o f.0 f.1 ≡ done (t, p))

decrypt_plain :
    (o : TransportOptions) (t : ℕ) (p : List ℕ)
    → (t == 17) ≡ false
    → decrypt_layer o t p ≡ done (t, p)
unfolding decrypt_layer
decrypt_plain o t p plain = rw plain refl

decrypt-encrypted :
    (o : TransportOptions) (c : Codec) (t : ℕ) (p out : List ℕ)
    → o.encryptor ≡ some c
    → c.decode out 65528 ≡ some (with_header t p)
    → length p ≤ 65500
    → decrypt_layer o 17 out ≡ done (t, p)
unfolding decrypt_layer
decrypt-encrypted o c t p out has decoded fits =
    let small : ltb 65528 (length (with_header t p)) ≡ false =
      ground (arith, length-with_header t p) in
    rw (has, decoded, small) (inner_message-with_header t p _ fits)

encrypt_absent :
    (o : TransportOptions) (t : ℕ) (p : List ℕ)
    → o.encryptor ≡ none
    → encrypt_layer o t p ≡ write_raw_message o t p
unfolding encrypt_layer
encrypt_absent o t p absent = rw absent refl

encrypt_off :
    (o : TransportOptions) (c : Codec) (t : ℕ) (p : List ℕ)
    → o.encryptor ≡ some c
    → o.encrypt ≡ false
    → encrypt_layer o t p ≡ write_raw_message o t p
unfolding encrypt_layer
encrypt_off o c t p has off = rw (has, off) refl

encrypt_on :
    (o : TransportOptions) (c : Codec) (t : ℕ) (p : List ℕ)
    → o.encryptor ≡ some c
    → o.encrypt ≡ true
    → encrypt_layer o t p ≡ and_then (seal 65530 c t p) (write_raw_message o 17)
unfolding encrypt_layer
encrypt_on o c t p has on = rw (has, on) refl

abbrev seal_room : ℕ → ℕ
seal_room n = if leb (3 + n + (3 + n + 24 + 16)) 65535 then 65535 - (3 + n) else 65535

seal_room_enough : (n : ℕ) → n ≤ 65487 → 3 + n + 40 ≤ seal_room n
seal_room_enough n h = ground arith

seal_room_held : (n : ℕ) → seal_room n ≤ 65535
seal_room_held n = ground arith

seal-room :
    (c : Codec) (t : ℕ) (p out : List ℕ)
    → length p ≤ 65487
    → c.encode (with_header t p) (seal_room (length p)) ≡ some out
    → seal 65530 c t p ≡ done out
unfolding seal
seal-room c t p out fits encoded =
    let accepted : ltb 65530 (3 + length p + 24 + 16) ≡ false = ground arith in
    rw (accepted, encoded) refl

encrypted :
    (o : TransportOptions) (t : ℕ) (p : List ℕ)
    → Lawful o
    → (t == 17) ≡ false
    → length p ≤ 65485
    → (f : ℕ × List ℕ) × Sealed o t p f
encrypted o t p law plain fits = elim (Option-cases o.encryptor) [
  | inl absent ↦ (
    (t, p),
    (
      encrypt_absent o t p absent ∙ raw_done o t p (omega arith),
      omega arith,
      decrypt_plain o t p plain,
    ),
  )
  | inr (c, has) ↦ elim (Bool-cases o.encrypt) [
    | inr off ↦ (
      (t, p),
      (
        encrypt_off o c t p has off ∙ raw_done o t p (omega arith),
        omega arith,
        decrypt_plain o t p plain,
      ),
    )
    | inl on ↦
        let (out, encoded, size, decoded) =
          law.encryptor_law c has (with_header t p) (seal_room (length p))
            (omega (arith, seal_room_enough (length p) (omega arith), length-with_header t p))
            (seal_room_held (length p)) in
        (
          (17, out),
          (
            encrypt_on o c t p has on
                ∙ rw (seal-room c t p out (omega arith) encoded)
                    (raw_done o 17 out (omega (arith, size, length-with_header t p))),
            omega (arith, size, length-with_header t p),
            decrypt-encrypted o c t p out has decoded (omega arith),
          ),
        )
  ]
]

-- For a message of type 0 or 1 of at most 65485 bytes, whether compression and encryption are on or
-- off, `WriteMessage` succeeds, and `ReadMessage` with the same options on a stream that starts
-- with what was written returns the type and the data, and leaves the rest of the stream. The magic
-- has 4 bytes. The compressor succeeds in a buffer with 17 bytes to spare and the encryptor with
-- 40, which it adds, and decoding gives back what was encoded.
pub read_message-write_message :
    (o : TransportOptions) (typ : ℕ) (payload rest : List ℕ)
    → Lawful o
    → is_standard typ ≡ true
    → length payload ≤ 65485
    → (out : List ℕ) × (write_message o typ payload ≡ done out)
      × (read_message o (out ++ rest) ≡ done ((typ, payload), rest))
unfolding write_message read_message
read_message-write_message o typ payload rest law standard fits =
    let (m, packed, (plain, smaller, unpacks)) = compressed o typ payload law standard fits in
    let (f, (sealed, held, opens)) = encrypted o m.0 m.1 law plain (omega arith) in
    (
      o.magic ++ with_header f.0 f.1,
      rw (standard, packed, sealed) refl,
      rw (read_frame-frame o f.0 f.1 rest law.magic_four held, opens, unpacks) refl,
    )

raw_panics :
    (o : TransportOptions) (typ : ℕ) (payload : List ℕ)
    → 65529 ≤ length payload
    → length payload ≤ 65530
    → write_raw_message o typ payload ≡ panic
unfolding write_raw_message write_frame
raw_panics o typ payload lo hi =
    let accepted : ltb 65530 (length payload) ≡ false = ground arith in
    let cut : ltb 65535 (7 + length payload) ≡ true = ground arith in rw (accepted, cut) refl

compress_absent :
    (o : TransportOptions) (typ : ℕ) (payload : List ℕ)
    → o.compressor ≡ none
    → compress_layer message_room o typ payload ≡ done (typ, payload)
unfolding compress_layer
compress_absent o typ payload absent = rw absent refl

-- With encryption on and no compressor, `WriteMessage` panics on a message of type 0 or 1 of 65486
-- or 65487 bytes: encrypted it passes the check of the length, and is longer than the buffer has
-- room for. The encryptor succeeds with 40 bytes to spare, which it adds.
pub write_message-panic :
    (o : TransportOptions) (c : Codec) (typ : ℕ) (payload : List ℕ)
    → Lawful o
    → o.encryptor ≡ some c
    → o.encrypt ≡ true
    → o.compressor ≡ none
    → is_standard typ ≡ true
    → 65486 ≤ length payload
    → length payload ≤ 65487
    → write_message o typ payload ≡ panic
unfolding write_message
write_message-panic o c typ payload law has on absent standard lo hi =
    let (out, encoded, size, _) =
      law.encryptor_law c has (with_header typ payload) (seal_room (length payload))
        (omega (arith, seal_room_enough (length payload) hi, length-with_header typ payload))
        (seal_room_held (length payload)) in
    let grown : length out ≡ length payload + 43 =
      omega (arith, size, length-with_header typ payload) in
    let sealed = encrypt_on o c typ payload has on in
    rw
      (
        standard,
        compress_absent o typ payload absent,
        sealed,
        seal-room c typ payload out hi encoded,
      )
      (raw_panics o 17 out (omega arith) (omega arith))
