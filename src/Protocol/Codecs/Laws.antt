-- ===== src/Protocol/Codecs/Laws.antt =====
-- The codecs of common/protocol/encryptor.go and compressor.go keep the promises that the frames of
-- common/protocol/protocol.go rest on.
use mathlib.Core.Path.{subst}
use mathlib.Core.Option.{some-injective}
use go_vnet.Base.{
  ℕ, zero, suc, ◌+◌, ◌≤◌, ◌<◌, ◌≡◌, refl, ap, ◌∙◌, true, false, some, List, [], ◌∷◌, ◌++◌, arith,
  length, length-append, take, drop, ltb, leb,
}
use go_vnet.Protocol.{TransportOptions}
use go_vnet.Protocol.Frames.{take-append, drop-append}
use go_vnet.Protocol.Compressing.{CompressorLaw, EncryptorLaw, Lawful}
use go_vnet.Protocol.Codecs.{
  Aead, encrypt, within, decrypt, chacha, Zstd, copied, compress_zstd, decoded, decompress_zstd,
  written_of, zstd, zstd_overhead,
}

-- what package chacha20poly1305 documents: a tag of 16 bytes, and `Open` undoes `Seal`
pub record AeadLaw (a : Aead) : Type 0 where
  pub tag : a.overhead ≡ 16
  pub sealed_length :
      (nonce text : List ℕ) → length nonce ≡ 24 → length (a.seal nonce text) ≡ length text + 16
  pub opens :
      (nonce text : List ℕ)
      → length nonce ≡ 24
      → a.open_sealed nonce (a.seal nonce text) ≡ some text

-- A zstd frame of one block, as RFC 8878 has it, without a dictionary: the magic number, the
-- descriptor of the frame and of the window and a content size of at most 4 bytes, a block header
-- of 3 bytes with a block that is no longer than the text, as an incompressible text is stored raw,
-- and a checksum of 4 bytes.
pub record Frame (text out : List ℕ) : Type 0 where
  pub header : List ℕ
  pub block : List ℕ
  pub checksum : List ℕ
  pub parts : out ≡ header ++ (block ++ checksum)
  pub header_size : length header ≤ 4 + 1 + 1 + 4
  pub block_size : length block ≤ 3 + length text
  pub checksum_size : length checksum ≤ 4

-- what package zstd documents: `EncodeAll` with `WithZeroFrames` always writes a frame, a text of
-- at most 128 KB is one block of it, and `DecodeAll` undoes it
pub record ZstdLaw (z : Zstd) : Type 0 where
  pub some_frame : (text : List ℕ) → 0 < length (z.encode_all text)
  pub one_block : (text : List ℕ) → length text ≤ 131072 → Frame text (z.encode_all text)
  pub decodes :
      (text : List ℕ) → length text ≤ 131072 → z.decode_all (z.encode_all text) ≡ some text

-- so that `ZstdOverhead` is enough for the texts that a transport compresses
Frame-overhead : (text out : List ℕ) → Frame text out → length out ≤ length text + zstd_overhead
Frame-overhead text out f = omega (
  arith,
  ap length f.parts,
  length-append f.header (f.block ++ f.checksum),
  length-append f.block f.checksum,
  f.header_size,
  f.block_size,
  f.checksum_size,
)

split_nonce :
    (a : Aead) (nonce sealed : List ℕ) (room : ℕ)
    → length nonce ≡ 24
    → decrypt a (nonce ++ sealed) room ≡ within room (a.open_sealed nonce sealed)
unfolding decrypt
split_nonce a nonce sealed room size =
    let long : ltb (length (nonce ++ sealed)) 24 ≡ false =
      ground (arith, length-append nonce sealed) in
    let front : take 24 (nonce ++ sealed) ≡ nonce =
      subst (λ k. take k (nonce ++ sealed) ≡ nonce) size (take-append nonce sealed) in
    let back : drop 24 (nonce ++ sealed) ≡ sealed =
      subst (λ k. drop k (nonce ++ sealed) ≡ sealed) size (drop-append nonce sealed) in
    rw (long, front, back) refl

pub chacha-EncryptorLaw :
    (a : Aead) (nonce : List ℕ)
    → AeadLaw a
    → length nonce ≡ 24
    → EncryptorLaw (chacha a (some nonce))
unfolding chacha encrypt within
chacha-EncryptorLaw a nonce law size text room fits held =
    let roomy : ltb room (24 + length text + a.overhead) ≡ false = ground (arith, law.tag) in
    let small : leb (length text) 65528 ≡ true = ground arith in
    (
      nonce ++ a.seal nonce text,
      rw roomy refl,
      omega
          (arith, length-append nonce (a.seal nonce text), law.sealed_length nonce text size, size),
      split_nonce a nonce (a.seal nonce text) 65528 size
          ∙ ap (within 65528) (law.opens nonce text size)
          ∙ rw small refl,
    )

take_within : (s : List ℕ) (n : ℕ) → length s ≤ n → take n s ≡ s
take_within [] zero h = refl
take_within [] (suc n) h = refl
take_within (x ∷ s) zero h = absurd (omega arith)
take_within (x ∷ s) (suc n) h = ap (λ l. x ∷ l) (take_within s n (omega arith))

copied_whole :
    (room : ℕ) (out : List ℕ)
    → 0 < length out
    → length out ≤ room
    → copied room out ≡ some (out, length out)
unfolding copied
copied_whole room [] h fits = absurd (omega arith)
copied_whole room (b ∷ out) h fits =
    ap (λ l. some (l, length (b ∷ out))) (take_within (b ∷ out) room fits)

decompressed :
    (z : Zstd) (out text : List ℕ)
    → 0 < length out
    → 0 < length text
    → length text ≤ 65528
    → z.decode_all out ≡ some text
    → decompress_zstd z out 65528 ≡ some text
unfolding decompress_zstd decoded
decompressed z [] text h some_bytes fits e = absurd (omega arith)
decompressed z (b ∷ out) [] h some_bytes fits e = absurd (omega arith)
decompressed z (b ∷ out) (x ∷ text) h some_bytes fits e =
    let small : leb (length (x ∷ text)) 65528 ≡ true = ground arith in
    ap (decoded 65528) e ∙ rw small refl

compress_whole :
    (z : Zstd) (x : ℕ) (text : List ℕ) (room : ℕ)
    → ZstdLaw z
    → length (x ∷ text) + 17 ≤ room
    → room ≤ 65535
    → compress_zstd z (x ∷ text) room
      ≡ some (z.encode_all (x ∷ text), length (z.encode_all (x ∷ text)))
unfolding compress_zstd
compress_whole z x text room law fits held =
    let roomy : ltb room (length (x ∷ text) + 17) ≡ false = ground arith in
    rw roomy (
      copied_whole room (z.encode_all (x ∷ text)) (law.some_frame (x ∷ text)) (
        omega (
          arith,
          Frame-overhead (x ∷ text) (z.encode_all (x ∷ text))
              (law.one_block (x ∷ text) (omega arith)),
        )))

pub zstd-CompressorLaw : (z : Zstd) → ZstdLaw z → CompressorLaw (zstd z)
unfolding zstd
zstd-CompressorLaw z law [] room some_bytes fits held = absurd (omega arith)
zstd-CompressorLaw z law (x ∷ text) room some_bytes fits held = (
  z.encode_all (x ∷ text),
  ap written_of (compress_whole z x text room law fits held),
  decompressed z (z.encode_all (x ∷ text)) (x ∷ text) (law.some_frame (x ∷ text)) (omega arith)
      (omega arith) (law.decodes (x ∷ text) (omega arith)),
)

-- The transport of a client or server with the compressor and the encryptor of the program keeps
-- the laws on which the round trip of its messages rests, if the AEAD does what its package
-- documents, and zstd what its package and RFC 8878 document for texts of at most 128 KB. The nonce
-- has 24 bytes, and the magic number four.
pub codecs-Lawful :
    (o : TransportOptions) (a : Aead) (z : Zstd) (nonce : List ℕ)
    → AeadLaw a
    → ZstdLaw z
    → length nonce ≡ 24
    → length o.magic ≡ 4
    → Lawful (record o { compressor = some (zstd z); encryptor = some (chacha a (some nonce)) })
codecs-Lawful o a z nonce aead_law zstd_law size four = record {
  magic_four = four;
  compressor_law =
      λ c e. subst CompressorLaw (some-injective _ _ e) (zstd-CompressorLaw z zstd_law);
  encryptor_law =
      λ c e. subst EncryptorLaw (some-injective _ _ e) (chacha-EncryptorLaw a nonce aead_law size);
}
