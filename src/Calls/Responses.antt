-- ===== src/Calls/Responses.antt =====
-- vnet/client/manager.go: which response a call gets.
use go_vnet.Calls.Channels.{IsForeign, AllForeign, receive_loop_foreign, dead_loop, stored_empty}
use mathlib.Core.Path.{subst}
use go_vnet.Base.{
  ℕ, ◌≡◌, refl, ap, ◌∙◌, sym, Bool, false, Option, none, some, List, [], ◌∷◌, ◌++◌, find, store,
  Bool-cases, inl, inr,
}
use go_vnet.Calls.{
  Response, Message, func_call, Manager, receive_loop, first, call_func, handle_func_call, called,
  with_id, as_message, handle_func_call_event, or_no_bytes, Json, decoded_call, message_of,
}

-- the messages as they arrive
abbrev pub messages_of : Json → (List ℕ → Option ℕ) → List (List ℕ) → List Message
messages_of json event [] = []
messages_of json event (bytes ∷ rest) = message_of json event bytes ∷ messages_of json event rest

messages_of-append :
    (json : Json) (event : List ℕ → Option ℕ) (l k : List (List ℕ))
    → messages_of json event (l ++ k) ≡ messages_of json event l ++ messages_of json event k
messages_of-append json event [] k = refl
messages_of-append json event (x ∷ l) k =
    ap (λ t. message_of json event x ∷ t) (messages_of-append json event l k)

undecoded :
    (json : Json) (event : List ℕ → Option ℕ)
    → json.unmarshal [] ≡ none
    → message_of json event (1 ∷ []) ≡ func_call none
unfolding message_of decoded_call
undecoded json event e = ap decoded_call e

append-AllForeign :
    (id : ℕ) (l k : List Message) → AllForeign id l → AllForeign id k → AllForeign id (l ++ k)
append-AllForeign id [] k all more = more
append-AllForeign id (x ∷ l) k (h, all) more = (h, append-AllForeign id l k all more)

pub call_func_early :
    (id : ℕ) (before after : List Message) (m : Manager)
    → AllForeign id after
    → (call_func id before after m).1 ≡ none
unfolding call_func
call_func_early id before after m late =
    let sent = receive_loop before m in
    let stored : Manager = record sent { resp_chans = store id [] sent.resp_chans } in
    elim (Bool-cases sent.panicked) [
      | inl dead ↦
          ap (λ n. first (find id n.resp_chans)) (dead_loop after stored dead)
          ∙ ap first (stored_empty id sent.resp_chans)
      | inr alive ↦
          ap first
            ((receive_loop_foreign id after stored late alive).0 ∙ stored_empty id sent.resp_chans)
    ]

-- When JSON cannot encode the response, the server sends a message without a text all the same. If
-- the client cannot decode the empty text, as JSON cannot, and no other response to the request
-- arrives, `CallFunc` runs into the timeout.
pub call_func_unencoded :
    (json : Json) (event : List ℕ → Option ℕ) (functions : List (ℕ × (ℕ → Option Response × Bool)))
    (f : ℕ → Option Response × Bool) (name id args : ℕ) (r : Response)
    (before between after : List (List ℕ)) (m : Manager)
    → find name functions ≡ some f
    → f args ≡ (some r, false)
    → json.marshal (some (record r { request_id = id })) ≡ none
    → json.unmarshal [] ≡ none
    → AllForeign id (messages_of json event between)
    → AllForeign id (messages_of json event after)
    → (sent : List ℕ) × (handle_func_call_event json functions name id args ≡ some sent)
      × ((call_func id
            (messages_of json event before)
            (messages_of json event (between ++ sent ∷ after))
            m).1
          ≡ none)
unfolding handle_func_call_event handle_func_call called with_id as_message or_no_bytes
call_func_unencoded json event functions f name id args r before between after m has answers encodes
      decodes late later =
    (
      1 ∷ [],
      ap (λ o. as_message json (called id o args)) has
          ∙ ap (λ a. as_message json (with_id id a)) answers
          ∙ ap (λ o. some (1 ∷ or_no_bytes o)) encodes,
      call_func_early id (messages_of json event before)
          (messages_of json event (between ++ (1 ∷ []) ∷ after)) m
          (subst (AllForeign id) (sym (messages_of-append json event between ((1 ∷ []) ∷ after))) (
            append-AllForeign id (messages_of json event between)
              (message_of json event (1 ∷ []) ∷ messages_of json event after) late
              (subst (IsForeign id) (sym (undecoded json event decodes)) tt, later))),
    )
