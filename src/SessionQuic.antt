-- ===== src/SessionQuic.antt =====
-- common/session/session_quic.go: messages on the datagrams of a QUIC connection. A message of more
-- than 990 bytes is sent in fragments, each behind a header. The map of partial messages is a list
-- of its entries. The connection is a parameter: which datagrams it accepts, and those that arrive.
pub mod Headers
pub mod Slots
pub mod Reassembly
pub mod Chunks
pub mod Delivery
mod Tests
use go_vnet.Base.{
  ℕ, zero, suc, ◌+◌, ◌-◌, ◌*◌, ◌/◌, ◌%◌, ◌^◌, Bool, true, false, Option, none, some, List, [], ◌∷◌,
  ◌++◌, length, take, drop, get_elem?, set, replicate, ltb, leb, ◌==◌, if◌then◌else◌, find, store,
  delete,
}
use go_vnet.Protocol.{put_uint16, uint16}
use go_vnet.SessionConn.{put_uint32, uint32}

abbrev pub max_datagram_size : ℕ
max_datagram_size = 1000

abbrev pub fragment_magic : ℕ
fragment_magic = 0xD0C0

pub record FragmentHeader : Type 0 where
  pub magic : ℕ
  pub message_id : ℕ
  pub fragment_index : ℕ
  pub fragment_count : ℕ

unfoldable pub encode : FragmentHeader → List ℕ
encode h =
    put_uint16 h.magic
    ++ put_uint32 h.message_id
    ++ put_uint16 h.fragment_index
    ++ put_uint16 h.fragment_count

-- the header and the rest; none is one of the three errors
unfoldable pub decode_fragment_header : List ℕ → Option (FragmentHeader × List ℕ)
decode_fragment_header buf =
    let magic = uint16 buf in
    let fragment_index = uint16 (drop 6 buf) in
    let fragment_count = uint16 (drop 8 buf) in
    if ltb (length buf) 10
    then none
    else if magic == fragment_magic
    then (if leb fragment_count fragment_index
        then none
        else some (
          record {
            magic = magic;
            message_id = uint32 (drop 2 buf);
            fragment_index = fragment_index;
            fragment_count = fragment_count;
          },
          drop 10 buf,
        ))
    else none

-- A fragment that has not arrived is none.
pub record PartialMessage : Type 0 where
  pub fragments : List (Option (List ℕ))
  pub received : ℕ

-- `messages`
abbrev pub Reassembler : Type 0
Reassembler = List (ℕ × PartialMessage)

unfoldable pub or_new : ℕ → Option PartialMessage → PartialMessage
or_new count (some m) = m
or_new count none = record { fragments = replicate count none; received = 0 }

-- the partial message of the header, a new one if there is none
unfoldable pub message_for : FragmentHeader → Reassembler → PartialMessage
message_for h r = or_new h.fragment_count (find h.message_id r)

unfoldable pub assemble : List (Option (List ℕ)) → List ℕ
assemble [] = []
assemble (none ∷ fragments) = assemble fragments
assemble (some fragment ∷ fragments) = fragment ++ assemble fragments

unfoldable pub is_missing : Option (Option (List ℕ)) → Bool
is_missing (some none) = true
is_missing (some (some fragment)) = false
is_missing none = false

unfoldable pub with_fragment : ℕ → List ℕ → PartialMessage → PartialMessage
with_fragment index buf m = record {
  fragments = set m.fragments index (some buf);
  received = (m.received + 1) % 2 ^ 16;
}

-- the new fragment of a message
unfoldable pub accept :
    FragmentHeader → PartialMessage → Reassembler → Reassembler × Option (List ℕ)
accept h m r =
    if m.received == h.fragment_count
    then (delete h.message_id r, some (assemble m.fragments))
    else (store h.message_id m r, none)

-- the fragment and the partial message it belongs to, which is stored before it is looked at
unfoldable pub add_to :
    FragmentHeader → List ℕ → PartialMessage → Reassembler → Reassembler × Option (List ℕ)
add_to h buf m r =
    let stored = store h.message_id m r in
    if length m.fragments == h.fragment_count
    then (if leb (length m.fragments) h.fragment_index
        then (stored, none)
        else if is_missing (get_elem? m.fragments h.fragment_index)
        then accept h (with_fragment h.fragment_index buf m) stored
        else (stored, none))
    else (delete h.message_id r, none)

unfoldable pub add_fragment : FragmentHeader → List ℕ → Reassembler → Reassembler × Option (List ℕ)
add_fragment h buf r = add_to h buf (message_for h r) r

unfoldable pub cleanup : Reassembler → Reassembler
cleanup r = []

-- `messageIDCounter`
unfoldable pub next_message_id : ℕ → ℕ
next_message_id counter = (counter + 1) % 2 ^ 32

abbrev pub max_payload_size : ℕ
max_payload_size = 990

unfoldable pub fragment_count_of : List ℕ → ℕ
fragment_count_of buf = (length buf + 989) / 990

-- `data[start:end]`
unfoldable pub fragment_data : List ℕ → ℕ → List ℕ
fragment_data buf i =
    let start = i * 990 in
    let stop = (if ltb (length buf) (start + 990) then length buf else start + 990) in
    take (stop - start) (drop start buf)

unfoldable pub datagram_of : List ℕ → ℕ → ℕ → ℕ → List ℕ
datagram_of buf id count i =
    encode (record {
      magic = fragment_magic;
      message_id = id;
      fragment_index = i;
      fragment_count = count;
    })
    ++ fragment_data buf i

-- the loop from a fragment on, for so many fragments: what is sent, and whether all are
unfoldable pub send_fragments : (List ℕ → Bool) → List ℕ → ℕ → ℕ → ℕ → ℕ → List (List ℕ) × Bool
send_fragments accepts buf id count i zero = ([], true)
send_fragments accepts buf id count i (suc n) =
    let more = send_fragments accepts buf id count (i + 1) n in
    if accepts (datagram_of buf id count i)
    then (datagram_of buf id count i ∷ more.0, more.1)
    else ([], false)

-- `Send`: the counter, the datagrams, and whether it succeeds
unfoldable pub send_message : (List ℕ → Bool) → ℕ → List ℕ → ℕ × List (List ℕ) × Bool
send_message accepts counter buf =
    let id = next_message_id counter in
    let count = fragment_count_of buf % 2 ^ 16 in
    let sent = send_fragments accepts buf id count 0 count in
    if leb (length buf) (max_datagram_size - 10)
    then (if accepts buf then (counter, buf ∷ [], true) else (counter, [], false))
    else (id, sent.0, sent.1)

-- A datagram without the header of a fragment is a message.
unfoldable pub receive_decoded :
    Reassembler → List ℕ → Option (FragmentHeader × List ℕ) → Reassembler × Option (List ℕ)
receive_decoded r datagram (some (h, payload)) = add_fragment h payload r
receive_decoded r datagram none = (r, some datagram)

-- one datagram of the loop of `Receive`
unfoldable pub receive_datagram : Reassembler → List ℕ → Reassembler × Option (List ℕ)
receive_datagram r datagram = receive_decoded r datagram (decode_fragment_header datagram)

-- The loop ends with a message.
unfoldable pub continue :
    Reassembler × Option (List ℕ)
    → List (List ℕ)
    → Reassembler × Option (List ℕ) × List (List ℕ)
    → Reassembler × Option (List ℕ) × List (List ℕ)
continue (r, some message) datagrams rest = (r, some message, datagrams)
continue (r, none) datagrams rest = rest

-- `Receive` on the datagrams that arrive: the message, and the datagrams that are left. Without a
-- message it ends with the error of `ReceiveDatagram`.
unfoldable pub receive_message :
    Reassembler → List (List ℕ) → Reassembler × Option (List ℕ) × List (List ℕ)
receive_message r [] = (r, none, [])
receive_message r (datagram ∷ datagrams) =
    let one = receive_datagram r datagram in
    continue one datagrams (receive_message one.0 datagrams)
