-- ===== src/Protocol/Batching.antt =====
-- Batches of common/protocol/protocol.go: their parsing, and their size.
use go_vnet.Base.{
  ℕ, suc, ◌+◌, ◌-◌, ◌<◌, ◌≤◌, ◌≡◌, refl, true, false, List, [], ◌∷◌, ◌++◌, some, none, map, arith,
  length, length-append, ltb,
}
use go_vnet.Protocol.{
  failed, message_too_large, TransportOptions, Codec, compress_layer, batch_room, seal, done,
  uint16,
}
use go_vnet.Protocol.Frames.{uint16-put_uint16, take-append, drop-append}
use go_vnet.Protocol.Batches.{
  batch_write, encrypt_batch, all_sizes, concat, batch_payload, parse_sizes, parse_messages,
  parse_batch,
}

-- Each message is shorter than 65536 bytes and fits the buffer at its place behind the offset.
abbrev pub Fit : ℕ → List (List ℕ) → List ℕ → Type 0
Fit offset [] bufs = Unit
Fit offset (m ∷ messages) [] = Unit → ⊥
Fit offset (m ∷ messages) (buf ∷ bufs) =
    (length m < 65536) × (offset + length m ≤ buf) × Fit offset messages bufs

two_more : (n : ℕ) → ltb (suc (suc n)) 2 ≡ false
two_more n = ground arith

parse_sizes-all_sizes :
    (offset : ℕ) (messages : List (List ℕ)) (bufs : List ℕ) (room : ℕ) (text : List ℕ)
    → Fit offset messages bufs
    → length messages ≤ room
    → parse_sizes (length messages) room (all_sizes messages ++ text)
      ≡ done (map length messages, text)
unfolding parse_sizes
parse_sizes-all_sizes offset [] bufs room text fit h = refl
parse_sizes-all_sizes offset (m ∷ messages) [] room text fit h = absurd (fit tt)
parse_sizes-all_sizes offset (m ∷ messages) (buf ∷ bufs) room text (small, _, fit) h =
    let some_room : ltb 0 room ≡ true = ground arith in
    let long : ltb (length (all_sizes (m ∷ messages) ++ text)) 2 ≡ false = two_more _ in
    let size : uint16 (all_sizes (m ∷ messages) ++ text) ≡ length m =
      uint16-put_uint16 (length m) (all_sizes messages ++ text) small in
    rw
      (
        some_room,
        long,
        parse_sizes-all_sizes offset messages bufs (room - 1) text fit (omega arith),
        size,
      )
      refl

parse_messages-concat :
    (offset : ℕ) (messages : List (List ℕ)) (bufs : List ℕ)
    → Fit offset messages bufs
    → parse_messages (map length messages) bufs offset (concat messages) ≡ done messages
unfolding parse_messages
parse_messages-concat offset [] bufs fit = refl
parse_messages-concat offset (m ∷ messages) [] fit = absurd (fit tt)
parse_messages-concat offset (m ∷ messages) (buf ∷ bufs) (small, roomy, fit) =
    let fits : ltb buf (offset + length m) ≡ false = ground arith in
    let there : ltb (length (m ++ concat messages)) (length m) ≡ false =
      ground (arith, length-append m (concat messages)) in
    rw
      (
        fits,
        there,
        drop-append m (concat messages),
        take-append m (concat messages),
        parse_messages-concat offset messages bufs fit,
      )
      refl

-- `ParseBatch` gives back exactly the messages of a batch, in their order, where there are fewer
-- than 65536, each shorter than 65536 bytes, and the arrays and buffers of the caller have room for
-- them.
pub parse_batch-batch_payload :
    (messages : List (List ℕ)) (sizes_len offset : ℕ) (bufs : List ℕ)
    → length messages < 65536
    → length messages ≤ sizes_len
    → Fit offset messages bufs
    → parse_batch sizes_len bufs offset (batch_payload messages) ≡ done messages
unfolding parse_batch batch_payload
parse_batch-batch_payload messages sizes_len offset bufs few room fit =
    let long : ltb (length (batch_payload messages)) 2 ≡ false = two_more _ in
    let count : uint16 (batch_payload messages) ≡ length messages =
      uint16-put_uint16 (length messages) (all_sizes messages ++ concat messages) few in
    rw
      (long, count, parse_sizes-all_sizes offset messages bufs sizes_len (concat messages) fit room)
      (parse_messages-concat offset messages bufs fit)

uncompressed :
    (o : TransportOptions) (payload : List ℕ)
    → o.compressor ≡ none
    → compress_layer batch_room o 1 payload ≡ done (1, payload)
unfolding compress_layer
uncompressed o payload absent = rw absent refl

refused :
    (o : TransportOptions) (c : Codec) (payload : List ℕ)
    → o.encryptor ≡ some c
    → o.encrypt ≡ true
    → 65486 ≤ length payload
    → encrypt_batch o 1 payload ≡ failed message_too_large
unfolding encrypt_batch seal
refused o c payload has on lo =
    let long : ltb 65528 (3 + length payload + 24 + 16) ≡ true = ground arith in
    rw (has, on, long) refl

-- With encryption on and no compressor, a batch of a payload of 65486 to 65528 bytes is refused as
-- too large, though `BatchWrite` puts up to 65512 bytes into a batch.
pub batch_write-too_large :
    (o : TransportOptions) (c : Codec) (messages : List (List ℕ))
    → o.encryptor ≡ some c
    → o.encrypt ≡ true
    → o.compressor ≡ none
    → 65486 ≤ length (batch_payload messages)
    → length (batch_payload messages) ≤ 65528
    → batch_write o messages ≡ failed message_too_large
unfolding batch_write
batch_write-too_large o c messages has on absent lo hi =
    let accepted : ltb 65530 (length (batch_payload messages)) ≡ false = ground arith in
    let held : ltb 65535 (7 + length (batch_payload messages)) ≡ false = ground arith in
    rw (accepted, held, uncompressed o (batch_payload messages) absent)
      (refused o c (batch_payload messages) has on lo)
