-- ===== src/Calls.antt =====
-- vnet/client/manager.go and vnet/server/manager.go: calls of the server's functions over the
-- control connection. A request id, a name and an event are numbers; a response is its request id,
-- its code and its data. What JSON does not decode is an argument of the message.
pub mod Channels
pub mod Responses
mod Tests
use go_vnet.Base.{
  ℕ, ◌≡◌, Bool, true, false, Option, none, some, List, [], ◌∷◌, ◌++◌, ◌==◌, if◌then◌else◌, find,
  store, delete,
}

pub record Response : Type 0 where
  pub request_id : ℕ
  pub failed : Bool
  pub body : ℕ

-- A message of the server by its first byte; none is a text that is not decoded, and
-- `func_call_null` is the JSON text null, which leaves a nil response.
pub data Message : Type 0 where
  func_call_null : Message
  func_call : Option Response → Message
  server_event : Option ℕ → Message
  other : Message
  empty : Message

-- The client's side: `funcCallRespChan`, each channel with what is in it, the ids of the responses
-- that were dropped, the events that the handler has had, and whether the loop ended in a panic.
pub record Manager : Type 0 where
  pub resp_chans : List (ℕ × List Response)
  pub dropped : List ℕ
  pub handled : List ℕ
  pub has_handler : Bool
  pub panicked : Bool

unfoldable pub to_chan : Response → Option (List Response) → Manager → Manager
to_chan r none m = record m { dropped = m.dropped ++ r.request_id ∷ [] }
to_chan r (some waiting) m = record m {
  resp_chans = store r.request_id (waiting ++ r ∷ []) m.resp_chans;
}

-- a round of `receiveLoop`
unfoldable pub receive : Message → Manager → Manager
receive (func_call none) m = m
receive (func_call (some r)) m = to_chan r (find r.request_id m.resp_chans) m
receive (server_event none) m = m
receive (server_event (some e)) m =
    if m.has_handler then record m { handled = m.handled ++ e ∷ [] } else m
receive func_call_null m = record m { panicked = true }
receive other m = m
receive empty m = record m { panicked = true }

-- `receiveLoop`
unfoldable pub receive_loop : List Message → Manager → Manager
receive_loop [] m = m
receive_loop (message ∷ messages) m =
    if m.panicked then m else receive_loop messages (receive message m)

abbrev pub first : Option (List Response) → Option Response
first none = none
first (some []) = none
first (some (r ∷ rest)) = some r

-- `CallFunc`, with the messages that arrive between the request and the store of the channel, and
-- those that arrive from then on until the timeout. None is the timeout.
unfoldable pub call_func : ℕ → List Message → List Message → Manager → Manager × Option Response
call_func id before after m =
    let sent = receive_loop before m in
    let stored = record sent { resp_chans = store id [] sent.resp_chans } in
    let waited = receive_loop after stored in
    (record waited { resp_chans = delete id waited.resp_chans }, first (find id waited.resp_chans))

-- A function of the server gives a response or none, and whether it failed. The response gets the
-- id of the request.
unfoldable pub with_id : ℕ → Option Response × Bool → Option Response × Bool
with_id id (none, failed) = (none, failed)
with_id id (some r, failed) = (some (record r { request_id = id }), failed)

unfoldable pub called : ℕ → Option (ℕ → Option Response × Bool) → ℕ → Option Response × Bool
called id none args = (some (record { request_id = id; failed = true; body = 0 }), false)
called id (some f) args = with_id id (f args)

-- `handleFuncCall`; an unknown name is answered with code -1
unfoldable pub handle_func_call :
    List (ℕ × (ℕ → Option Response × Bool)) → ℕ → ℕ → ℕ → Option Response × Bool
handle_func_call functions name id args = called id (find name functions) args

-- the bytes that are written when the error of a marshalling is ignored
unfoldable pub or_no_bytes : Option (List ℕ) → List ℕ
or_no_bytes none = []
or_no_bytes (some text) = text

abbrev pub message_type_func_call : ℕ
message_type_func_call = 1

-- package json: the text of a response, nil included, none for data that it cannot encode; and the
-- response that a text gives, none for one that it cannot decode
pub record Json : Type 0 where
  pub marshal : Option Response → Option (List ℕ)
  pub unmarshal : List ℕ → Option (Option Response)

-- what is sent for the result of a function
unfoldable pub as_message : Json → Option Response × Bool → Option (List ℕ)
as_message json (answer, true) = none
as_message json (answer, false) = some (message_type_func_call ∷ or_no_bytes (json.marshal answer))

-- `HandleFuncCallEvent`: the bytes that are sent, none when the function failed
unfoldable pub handle_func_call_event :
    Json → List (ℕ × (ℕ → Option Response × Bool)) → ℕ → ℕ → ℕ → Option (List ℕ)
handle_func_call_event json functions name id args =
    as_message json (handle_func_call functions name id args)

unfoldable pub decoded_call : Option (Option Response) → Message
decoded_call none = func_call none
decoded_call (some none) = func_call_null
decoded_call (some (some r)) = func_call (some r)

-- How `receiveLoop` reads the bytes of a message; `event` decodes an event of the server.
unfoldable pub message_of : Json → (List ℕ → Option ℕ) → List ℕ → Message
message_of json event [] = empty
message_of json event (typ ∷ text) =
    if typ == message_type_func_call
    then decoded_call (json.unmarshal text)
    else if typ == 2
    then server_event (event text)
    else other
