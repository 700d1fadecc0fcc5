-- ===== src/SessionConn.antt =====
-- common/session/session_conn.go: messages on a stream connection, each behind a type byte and its
-- length in 4 bytes. The JSON of an error message is a parameter: its encoding and its decoding.
pub mod Delivery
mod Tests
use go_vnet.Base.{
  ℕ, ◌+◌, ◌*◌, ◌/◌, ◌%◌, ◌^◌, Option, none, some, List, [], ◌∷◌, ◌++◌, length, take, drop, get_or,
  ltb, ◌==◌, if◌then◌else◌,
}

abbrev pub type_error : ℕ
type_error = 1

-- `binary.BigEndian.PutUint32` and `Uint32`
abbrev pub put_uint32 : ℕ → List ℕ
put_uint32 n = n / 2 ^ 24 % 256 ∷ n / 2 ^ 16 % 256 ∷ n / 2 ^ 8 % 256 ∷ n % 256 ∷ []

abbrev pub uint32 : List ℕ → ℕ
uint32 s = get_or s 0 0 * 2 ^ 24 + get_or s 1 0 * 2 ^ 16 + get_or s 2 0 * 2 ^ 8 + get_or s 3 0

-- `send`: what it writes to the connection
unfoldable pub send_typed : ℕ → List ℕ → List ℕ
send_typed typ payload = typ ∷ put_uint32 (length payload) ++ payload

-- `Send`
unfoldable pub send : List ℕ → List ℕ
send payload = send_typed 0 payload

-- an error that is reported to the other side: one of this package, or another with its text
pub data Cause : Type 0 where
  session_error : List ℕ → ℕ → Cause
  other_error : List ℕ → Cause

abbrev pub message_of : Cause → List ℕ × ℕ
message_of (session_error msg code) = (msg, code)
message_of (other_error msg) = (msg, 500)

-- `CloseWithError`: what it writes before it closes
unfoldable pub close_with_error : (List ℕ × ℕ → List ℕ) → Option Cause → List ℕ
close_with_error marshal none = []
close_with_error marshal (some cause) = send_typed type_error (marshal (message_of cause))

-- what `Receive` returns: the error of the read, the data, or an error of the other side
pub data Received : Type 0 where
  read_error : Received
  message : List ℕ → Received
  remote_error : List ℕ → ℕ → Received

-- An error message that is no JSON is reported as no data and no error.
abbrev pub decoded : Option (List ℕ × ℕ) → Received
decoded none = message []
decoded (some (msg, code)) = remote_error msg code

-- `Receive`, and what it leaves of the stream
unfoldable pub receive : (List ℕ → Option (List ℕ × ℕ)) → List ℕ → Received × List ℕ
receive unmarshal stream =
    let len = uint32 (drop 1 stream) in
    let rest = drop 5 stream in
    if ltb (length stream) 5
    then (read_error, [])
    else if len == 0
    then (message [], rest)
    else if ltb (length rest) len
    then (read_error, [])
    else (
      (if get_or stream 0 0 == type_error
          then decoded (unmarshal (take len rest))
          else message (take len rest)),
      drop len rest,
    )
