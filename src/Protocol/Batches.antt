-- ===== src/Protocol/Batches.antt =====
-- common/protocol/protocol.go: `BatchWrite`, `batchWrite` and `ParseBatch`. A batch is
-- | count 2 bytes | size 2 bytes … | the messages, one behind the other |.
use go_vnet.Base.{
  ℕ, zero, suc, ◌+◌, ◌-◌, ◌&&◌, none, some, List, [], ◌∷◌, ◌++◌, length, take, drop, ltb, leb,
  if◌then◌else◌,
}
use go_vnet.Protocol.{
  Outcome, done, failed, panic, and_then, TransportOptions, message_too_large, sizes_too_small,
  buf_too_small, max_size, type_batch, put_uint16, uint16, batch_room, compress_layer, seal,
  write_frame, write_encrypted_message,
}

-- the messages to write, as slices behind the header of each buffer, with their sizes
abbrev pub all_sizes : List (List ℕ) → List ℕ
all_sizes [] = []
all_sizes (m ∷ messages) = put_uint16 (length m) ++ all_sizes messages

abbrev pub concat : List (List ℕ) → List ℕ
concat [] = []
concat (m ∷ messages) = m ++ concat messages

unfoldable pub batch_payload : List (List ℕ) → List ℕ
batch_payload messages = put_uint16 (length messages) ++ all_sizes messages ++ concat messages

unfoldable pub encrypt_batch : TransportOptions → ℕ → List ℕ → Outcome (List ℕ)
encrypt_batch o typ payload = elim o.encryptor [
  | none ↦ write_frame max_size o typ payload
  | some c ↦
      if o.encrypt
      then and_then (seal (max_size - 7) c typ payload) (write_encrypted_message o)
      else write_frame max_size o typ payload
]

-- `batchWrite`
unfoldable pub batch_write : TransportOptions → List (List ℕ) → Outcome (List ℕ)
batch_write o messages =
    let payload = batch_payload messages in
    if ltb 65530 (length payload)
    then failed message_too_large
    else if ltb max_size (7 + length payload)
    then panic
    else and_then (compress_layer batch_room o type_batch payload) λ m. encrypt_batch o m.0 m.1

-- the room for messages in one batch
unfoldable pub batch_space : TransportOptions → ℕ
batch_space o = elim o.encryptor [
  | none ↦ max_size - 9
  | some c ↦ if o.encrypt then max_size - (9 + 16) else max_size - 9
]

-- How many messages go into a batch: the inner loop, `count` messages of which `taken` are in.
unfoldable pub group_size : ℕ → ℕ → List (List ℕ) → ℕ
group_size taken remaining [] = taken
group_size taken remaining (m ∷ messages) =
    let more = group_size (taken + 1) (remaining - (2 + length m)) messages in
    if leb (2 + length m) remaining && ltb taken 128 then more else taken

abbrev pub written_before :
    Outcome (List ℕ) → List ℕ × Outcome (Unit {0}) → List ℕ × Outcome (Unit {0})
written_before (done out) rest = (out ++ rest.0, rest.1)
written_before (failed e) rest = ([], failed e)
written_before panic rest = ([], panic)

-- The outer loop. A round takes a message or gives up, so that the number of messages is enough
-- rounds. The outcome is what is written before the first error, and the error.
unfoldable pub batch_loop : ℕ → TransportOptions → List (List ℕ) → List ℕ × Outcome (Unit {0})
batch_loop rounds o [] = ([], done tt)
batch_loop zero o (m ∷ messages) = ([], done tt)
batch_loop (suc rounds) o (m ∷ messages) =
    let n = group_size 0 (batch_space o) (m ∷ messages) in
    let rest = batch_loop rounds o (drop n (m ∷ messages)) in
    if ltb 0 n
    then written_before (batch_write o (take n (m ∷ messages))) rest
    else ([], failed message_too_large)

-- `BatchWrite`
unfoldable pub batch_write_all : TransportOptions → List (List ℕ) → List ℕ × Outcome (Unit {0})
batch_write_all o messages = batch_loop (length messages) o messages

-- `ParseBatch`: the sizes, at most `room` of them, and the text behind them
unfoldable pub parse_sizes : ℕ → ℕ → List ℕ → Outcome (List ℕ × List ℕ)
parse_sizes zero room text = done ([], text)
parse_sizes (suc count) room text =
    let rest = parse_sizes count (room - 1) (drop 2 text) in
    if ltb 0 room
    then (if ltb (length text) 2 then panic else and_then rest λ r. done (uint16 text ∷ r.0, r.1))
    else failed sizes_too_small

-- the messages, each into a buffer that has room for it behind the offset
unfoldable pub parse_messages : List ℕ → List ℕ → ℕ → List ℕ → Outcome (List (List ℕ))
parse_messages [] bufs offset text = done []
parse_messages (size ∷ sizes) [] offset text = failed buf_too_small
parse_messages (size ∷ sizes) (buf ∷ bufs) offset text =
    let rest = parse_messages sizes bufs offset (drop size text) in
    if ltb buf (offset + size)
    then failed buf_too_small
    else if ltb (length text) size
    then panic
    else and_then rest λ r. done (take size text ∷ r)

-- `sizes_len` is the length of the array `sizes`, `bufs` are those of the buffers.
unfoldable pub parse_batch : ℕ → List ℕ → ℕ → List ℕ → Outcome (List (List ℕ))
parse_batch sizes_len bufs offset text =
    if ltb (length text) 2
    then panic
    else and_then (parse_sizes (uint16 text) sizes_len (drop 2 text))
        λ s. parse_messages s.0 bufs offset s.1
