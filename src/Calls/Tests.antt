-- ===== src/Calls/Tests.antt =====
-- A manager that waits for another call.
use go_vnet.Base.{
  List, ◌==◌, if◌then◌else◌, ℕ, ◌≡◌, refl, Bool, true, false, Option, none, some, [], ◌∷◌, find,
  store,
}
use go_vnet.Calls.{
  Json, Response, Message, func_call, server_event, Manager, call_func, handle_func_call, called,
  receive, receive_loop, to_chan,
}

abbrev manager : Manager
manager = record {
  resp_chans = [];
  dropped = [];
  handled = [];
  has_handler = true;
  panicked = false;
}

abbrev pong : Response
pong = record { request_id = 0; failed = false; body = 11 }

abbrev ping : ℕ → Option Response × Bool
ping args = (some pong, false)

-- a response to the call before, and an event
abbrev old_answer : Message
old_answer = func_call (some (record { request_id = 4; failed = false; body = 9 }))

abbrev response_text : Option Response → Option (List ℕ)
response_text none = some (0 ∷ [])
response_text (some r) = some (r.request_id ∷ (if r.failed then 1 else 0) ∷ r.body ∷ [])

abbrev text_response : List ℕ → Option (Option Response)
text_response (id ∷ code ∷ body ∷ []) =
    some (some (record { request_id = id; failed = code == 1; body = body }))
text_response (null ∷ []) = some none
text_response text = none

abbrev json : Json
json = record { marshal = response_text; unmarshal = text_response }

abbrev event : List ℕ → Option ℕ
event [] = none
event (e ∷ text) = some e

-- it is dropped
dropped_early : (call_func 4 (old_answer ∷ []) (server_event none ∷ []) manager).0.dropped ≡ 4 ∷ []
unfolding call_func receive_loop receive to_chan find store
dropped_early = refl

-- a name that the server does not know
unknown_name :
    handle_func_call ((1, ping) ∷ []) 2 5 0
    ≡ (some (record { request_id = 5; failed = true; body = 0 }), false)
unfolding handle_func_call called find
unknown_name = refl
