-- ===== src/Protocol.antt =====
-- common/protocol/protocol.go: `Transport`, which frames messages on a stream of bytes as | magic 4
-- bytes | type 1 byte | length 2 bytes | data |. The two buffers of 65535 bytes appear by their
-- sizes: a slice that does not fit is a panic, and a codec gets the room that is left. The test
-- whether the data lies at the start of `cryptoBuffer` is false on every path, as the compressor
-- writes further behind, so its branches are left out. The upstream accepts what is written.
pub mod Frames
pub mod Compressing
pub mod Roundtrip
pub mod Batches
pub mod Batching
pub mod Codecs
mod Tests
use go_vnet.Base.{
  ℕ, zero, suc, ◌+◌, ◌-◌, ◌*◌, ◌/◌, ◌%◌, Bool, true, false, ◌&&◌, ◌||◌, Option, none, some, List,
  [], ◌∷◌, ◌++◌, length, take, drop, get_or, ltb, leb, ◌==◌, if◌then◌else◌,
}

pub data Error : Type 0 where
  end_of_stream invalid_magic message_too_large missing_compressor missing_encryptor : Error
  decompression_failed codec_failed sizes_too_small buf_too_small : Error

pub data Outcome {ℓ} (A : Type ℓ) : Type ℓ where
  done : A → Outcome A
  failed : Error → Outcome A
  panic : Outcome A

abbrev pub and_then {ℓ κ} : {A : Type ℓ} {B : Type κ} → Outcome A → (A → Outcome B) → Outcome B
and_then (done a) f = f a
and_then (failed e) f = failed e
and_then panic f = panic

abbrev pub codec_result : Option (List ℕ) → Outcome (List ℕ)
codec_result none = failed codec_failed
codec_result (some out) = done out

-- A `Compressor` or `Encryptor`: from the data and the room in the target to what is written there.
pub record Codec : Type 0 where
  pub encode : List ℕ → ℕ → Option (List ℕ)
  pub decode : List ℕ → ℕ → Option (List ℕ)

pub record TransportOptions : Type 0 where
  pub magic : List ℕ
  pub encrypt : Bool
  pub compress : Bool
  pub compressor : Option Codec
  pub encryptor : Option Codec
  pub compress_threshold : ℕ

abbrev pub max_size : ℕ
max_size = 65535

-- `TypeTransport`, `TypeBatchTransport`, `TypeCompress` and `TypeEncrypted` are 0, 1, 16 and 17.
abbrev pub type_batch : ℕ
type_batch = 1

abbrev pub type_compress : ℕ
type_compress = 16

abbrev pub type_encrypted : ℕ
type_encrypted = 17

abbrev pub bytes_eq : List ℕ → List ℕ → Bool
bytes_eq [] [] = true
bytes_eq (a ∷ s) (b ∷ t) = if a == b then bytes_eq s t else false
bytes_eq _ _ = false

-- `binary.BigEndian.PutUint16`, and `Uint16` at the start of a slice
abbrev pub put_uint16 : ℕ → List ℕ
put_uint16 n = n / 256 % 256 ∷ n % 256 ∷ []

abbrev pub uint16 : List ℕ → ℕ
uint16 payload = get_or payload 0 0 * 256 + get_or payload 1 0

-- type, length and data
unfoldable pub with_header : ℕ → List ℕ → List ℕ
with_header typ payload = typ ∷ put_uint16 (length payload) ++ payload

-- the write of a whole message; `room` is the length that is accepted
unfoldable pub write_frame : ℕ → TransportOptions → ℕ → List ℕ → Outcome (List ℕ)
write_frame room o typ payload =
    if ltb room (length payload)
    then failed message_too_large
    else if ltb max_size (7 + length payload)
    then panic
    else done (o.magic ++ with_header typ payload)

-- `writeRawMessage`, and `writeEncryptedMessage`, which checks no length
unfoldable pub write_raw_message : TransportOptions → ℕ → List ℕ → Outcome (List ℕ)
write_raw_message = write_frame 65530

unfoldable pub write_encrypted_message : TransportOptions → List ℕ → Outcome (List ℕ)
write_encrypted_message o payload =
    if ltb max_size (7 + length payload)
    then panic
    else done (o.magic ++ with_header type_encrypted payload)

-- The target of the compressor in `WriteMessage` and in `batchWrite`, `none` where the latter gives
-- up.
unfoldable pub message_room : ℕ → Option ℕ
message_room header_len =
    if ltb (header_len + 1000) max_size && leb (header_len + 17) (max_size - header_len)
    then some (max_size - header_len)
    else some (max_size - 7)

unfoldable pub batch_room : ℕ → Option ℕ
batch_room header_len =
    if ltb (header_len + 1000) max_size && leb (header_len + 17) (max_size - header_len)
    then some (max_size - header_len)
    else if ltb (max_size - 7) header_len
    then none
    else some (max_size - (7 + header_len))

-- Compressed data is used only where it is shorter.
abbrev pub shorter : ℕ → List ℕ → List ℕ → ℕ × List ℕ
shorter typ payload out =
    if ltb (length out) (length payload) then (type_compress, out) else (typ, payload)

abbrev pub compress_into : Option ℕ → Codec → ℕ → List ℕ → Outcome (ℕ × List ℕ)
compress_into none c typ payload = failed message_too_large
compress_into (some room) c typ payload =
    and_then (codec_result (c.encode (with_header typ payload) room))
      λ out. done (shorter typ payload out)

unfoldable pub compress_layer :
    (ℕ → Option ℕ) → TransportOptions → ℕ → List ℕ → Outcome (ℕ × List ℕ)
compress_layer room o typ payload = elim o.compressor [
  | none ↦ done (typ, payload)
  | some c ↦
      if o.compress && leb o.compress_threshold (length payload)
      then compress_into (room (3 + length payload)) c typ payload
      else done (typ, payload)
]

-- The encryption of a message in at most `limit` bytes; the two ways of laying out `cryptoBuffer`.
unfoldable pub seal : ℕ → Codec → ℕ → List ℕ → Outcome (List ℕ)
seal limit c typ payload =
    let inner_len = 3 + length payload in
    let encrypted_len = inner_len + 24 + 16 in
    if ltb limit encrypted_len
    then failed message_too_large
    else codec_result (
        c.encode (with_header typ payload)
          (if leb (inner_len + encrypted_len) max_size then max_size - inner_len else max_size))

abbrev pub is_standard : ℕ → Bool
is_standard typ = (typ == 0) || (typ == type_batch)

unfoldable pub encrypt_layer : TransportOptions → ℕ → List ℕ → Outcome (List ℕ)
encrypt_layer o typ payload = elim o.encryptor [
  | none ↦ write_raw_message o typ payload
  | some c ↦
      if o.encrypt
      then and_then (seal 65530 c typ payload) (write_raw_message o type_encrypted)
      else write_raw_message o typ payload
]

unfoldable pub write_message : TransportOptions → ℕ → List ℕ → Outcome (List ℕ)
write_message o typ payload =
    if is_standard typ
    then and_then (compress_layer message_room o typ payload) (λ m. encrypt_layer o m.0 m.1)
    else if typ == type_compress
    then encrypt_layer o typ payload
    else write_raw_message o typ payload

-- `io.ReadFull`
abbrev pub read_full : ℕ → List ℕ → Outcome (List ℕ × List ℕ)
read_full n stream =
    if ltb (length stream) n then failed end_of_stream else done (take n stream, drop n stream)

-- The message in a decrypted or decompressed text. The comparison is one of uint16 numbers, so that
-- an inner length from 65533 on passes it, and the slice is out of range.
unfoldable pub inner_message : List ℕ → Outcome (ℕ × List ℕ) → Outcome (ℕ × List ℕ)
inner_message text otherwise =
    let inner_length = uint16 (drop 1 text) in
    if ltb (length text) 3
    then otherwise
    else if ltb (length text) ((3 + inner_length) % 65536)
    then otherwise
    else if ltb max_size (10 + inner_length)
    then panic
    else done (get_or text 0 0, take inner_length (drop 3 text))

unfoldable pub decrypt_layer : TransportOptions → ℕ → List ℕ → Outcome (ℕ × List ℕ)
unfolding inner_message
decrypt_layer o typ payload =
    if typ == type_encrypted
    then elim o.encryptor [
      | none ↦ failed missing_encryptor
      | some c ↦ and_then (codec_result (c.decode payload (max_size - 7))) λ text.
          if ltb (max_size - 7) (length text)
          then failed message_too_large
          else inner_message text
              (done (if ltb (length text) 3 then typ else get_or text 0 0, text))
    ]
    else done (typ, payload)

unfoldable pub decompress_layer : TransportOptions → ℕ → List ℕ → Outcome (ℕ × List ℕ)
unfolding inner_message
decompress_layer o typ payload =
    if typ == type_compress
    then elim o.compressor [
      | none ↦ failed missing_compressor
      | some c ↦ and_then (codec_result (c.decode payload (max_size - 7))) λ text.
          if ltb (max_size - 7) (length text)
          then failed message_too_large
          else inner_message text (failed decompression_failed)
    ]
    else done (typ, payload)

abbrev pub check_magic : TransportOptions → List ℕ → Outcome (Unit {0})
check_magic o read_magic = if bytes_eq read_magic o.magic then done tt else failed invalid_magic

-- the slice from 7 to `7+length`, whose end is a uint16
abbrev pub frame_bounds : ℕ → Outcome (Unit {0})
frame_bounds len = if ltb ((7 + len) % 65536) 7 then panic else done tt

-- The frame at the start of a stream, and the stream behind it.
unfoldable pub read_frame : TransportOptions → List ℕ → Outcome ((ℕ × List ℕ) × List ℕ)
read_frame o stream = and_then (read_full 4 stream) λ m. and_then (check_magic o m.0) λ _.
    and_then (read_full 3 m.1) λ h.
      and_then (frame_bounds (uint16 (drop 1 h.0)))
        λ _. and_then (read_full (uint16 (drop 1 h.0)) h.1) λ d. done ((get_or h.0 0 0, d.0), d.1)

unfoldable pub read_message : TransportOptions → List ℕ → Outcome ((ℕ × List ℕ) × List ℕ)
unfolding read_frame
read_message o stream = and_then (read_frame o stream) λ f.
    and_then (decrypt_layer o f.0.0 f.0.1)
      λ e. and_then (decompress_layer o e.0 e.1) λ m. done (m, f.1)

-- `Read`: the payload of the next frame, whatever its type
unfoldable pub read : TransportOptions → List ℕ → Outcome (List ℕ × List ℕ)
read o stream = and_then (read_full 4 stream) λ m. and_then (check_magic o m.0) λ _.
    and_then (read_full 3 m.1) λ h.
      let len = uint16 (drop 1 h.0) in
      if ltb 65530 len
      then failed message_too_large
      else and_then (frame_bounds len) (λ _. read_full len h.1)

-- `Write`
unfoldable pub write : TransportOptions → List ℕ → Outcome (List ℕ)
write o payload = write_message o 0 payload
