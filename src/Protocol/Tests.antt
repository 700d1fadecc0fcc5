-- ===== src/Protocol/Tests.antt =====
-- Transports with the magic bytes of the source. The codec of the tests frames its text with 40
-- bytes.
use mathlib.Core.Path.{subst}
use mathlib.Core.Option.{some-injective}
use go_vnet.Base.{
  ℕ, ◌+◌, ◌≡◌, refl, ap, sym, append-nil, true, Option, none, some, List, [], ◌∷◌, ◌++◌, arith,
  length, length-append, length-replicate, drop, replicate, leb, if◌then◌else◌,
}
use go_vnet.Protocol.{
  done, failed, panic, Codec, TransportOptions, end_of_stream, with_header, write_frame,
  write_raw_message, write_message, write, read_message, read, encrypt_layer, compress_layer,
}
use go_vnet.Protocol.Roundtrip.{read_message-write_message}
use go_vnet.Protocol.Compressing.{CompressorLaw, EncryptorLaw, Lawful}
use go_vnet.Protocol.Codecs.{Aead, Zstd, chacha, zstd}
use go_vnet.Protocol.Codecs.Laws.{AeadLaw, ZstdLaw, codecs-Lawful}
use go_vnet.Protocol.Batches.{
  batch_payload, batch_write, batch_write_all, batch_loop, batch_space, group_size, encrypt_batch,
}

-- 40 bytes in front of the text, where there is room
abbrev padded : List ℕ → ℕ → Option (List ℕ)
padded text room = if leb (length text + 40) room then some (replicate 40 0 ++ text) else none

abbrev pad : Codec
pad = record { encode = padded; decode = λ text _. some (drop 40 text) }

-- the text as it is
abbrev keep : Codec
keep = record { encode = λ text _. some text; decode = λ text _. some text }

abbrev vnet : TransportOptions
vnet = record {
  magic = 86 ∷ 78 ∷ 69 ∷ 84 ∷ [];
  encrypt = true;
  compress = true;
  compressor = some keep;
  encryptor = some pad;
  compress_threshold = 2;
}

abbrev bare : TransportOptions
bare = record vnet { compressor = none; encryptor = none }

bare_is_written : write bare (7 ∷ 8 ∷ []) ≡ done (86 ∷ 78 ∷ 69 ∷ 84 ∷ 0 ∷ 0 ∷ 2 ∷ 7 ∷ 8 ∷ [])
unfolding write write_message compress_layer encrypt_layer write_raw_message write_frame with_header
bare_is_written = refl

bare_is_read :
    read bare (86 ∷ 78 ∷ 69 ∷ 84 ∷ 0 ∷ 0 ∷ 2 ∷ 7 ∷ 8 ∷ 9 ∷ []) ≡ done (7 ∷ 8 ∷ [], 9 ∷ [])
unfolding read
bare_is_read = refl

short_stream : read bare (86 ∷ 78 ∷ []) ≡ failed end_of_stream
unfolding read
short_stream = refl

-- A message of 65529 bytes passes the check of the length, and does not fit the buffer.
write_panics :
    (payload : List ℕ) → length payload ≡ 65529 → write_raw_message bare 0 payload ≡ panic
unfolding write_raw_message write_frame
write_panics payload e = rw e refl

kept : CompressorLaw keep
kept text room some_bytes h held = (text, refl, refl)

pads : EncryptorLaw pad
pads text room h held =
    let fits : leb (length text + 40) room ≡ true = ground arith in
    (replicate 40 0 ++ text, rw fits refl, omega (arith), refl)

vnet-Lawful : Lawful vnet
vnet-Lawful = record {
  magic_four = refl;
  compressor_law = λ c e. subst CompressorLaw (some-injective _ _ e) kept;
  encryptor_law = λ c e. subst EncryptorLaw (some-injective _ _ e) pads;
}

read_message-write_message_example :
    (out : List ℕ) × (write_message vnet 0 (1 ∷ 2 ∷ 3 ∷ []) ≡ done out)
    × (read_message vnet (out ++ 9 ∷ []) ≡ done ((0, 1 ∷ 2 ∷ 3 ∷ []), 9 ∷ []))
read_message-write_message_example =
    read_message-write_message vnet 0 (1 ∷ 2 ∷ 3 ∷ []) (9 ∷ []) vnet-Lawful refl (omega arith)

abbrev sealed_only : TransportOptions
sealed_only = record vnet { compressor = none }

sealed_only-Lawful : Lawful sealed_only
sealed_only-Lawful = record {
  magic_four = refl;
  compressor_law = λ c e. cc;
  encryptor_law = λ c e. subst EncryptorLaw (some-injective _ _ e) pads;
}

-- Two messages go into one batch.
batched :
    batch_write_all bare ((5 ∷ []) ∷ (6 ∷ []) ∷ [])
    ≡ (86 ∷ 78 ∷ 69 ∷ 84 ∷ 1 ∷ 0 ∷ 8 ∷ 0 ∷ 2 ∷ 0 ∷ 1 ∷ 0 ∷ 1 ∷ 5 ∷ 6 ∷ [], done tt)
unfolding batch_write_all batch_loop batch_write batch_space group_size batch_payload compress_layer
    encrypt_batch write_frame with_header
batched = refl

one_message : (n b : ℕ) → length (batch_payload (replicate n b ∷ [])) ≡ n + 4
unfolding batch_payload
one_message n b = omega (arith, length-append (replicate n b) [], length-replicate n b)

-- a tag of zeros in front of the text, and a frame of one byte
abbrev tagged : Aead
tagged = record {
  seal = λ nonce text. replicate 16 0 ++ text;
  open_sealed = λ nonce text. some (drop 16 text);
  overhead = 16;
}

abbrev after_first : List ℕ → Option (List ℕ)
after_first [] = none
after_first (_ ∷ text) = some text

abbrev framed : Zstd
framed = record { encode_all = λ text. 0 ∷ text; decode_all = after_first }

tagged-AeadLaw : AeadLaw tagged
tagged-AeadLaw = record {
  tag = refl;
  sealed_length = λ nonce text size. omega arith;
  opens = λ nonce text size. refl;
}

framed-ZstdLaw : ZstdLaw framed
framed-ZstdLaw = record {
  some_frame = λ text. omega arith;
  one_block = λ text small. record {
    header = 0 ∷ [];
    block = text;
    checksum = [];
    parts = ap (λ l. 0 ∷ l) (sym (append-nil text));
    header_size = omega arith;
    block_size = omega arith;
    checksum_size = omega arith;
  };
  decodes = λ text small. refl;
}

codecs-Lawful_example : Lawful (record vnet {
  compressor = some (zstd framed);
  encryptor = some (chacha tagged (some (replicate 24 7)));
})
codecs-Lawful_example =
    codecs-Lawful vnet tagged framed (replicate 24 7) tagged-AeadLaw framed-ZstdLaw refl refl
