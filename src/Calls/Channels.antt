-- ===== src/Calls/Channels.antt =====
-- vnet/client/manager.go: what the messages that arrive do to the channel of a call.
use mathlib.Core.Path.{subst}
use mathlib.Core.Option.{some-injective}
use go_vnet.Base.{
  ℕ, ◌≡◌, refl, ap, ◌∙◌, sym, true, false, Option, none, some, List, [], ◌∷◌, ◌++◌, arith, ◌==◌,
  ==_iff, if◌then◌else◌, find, store, find-store, Bool-cases, inl, inr,
}
use go_vnet.Calls.{
  Response, Message, func_call, func_call_null, server_event, other, empty, Manager, to_chan,
  receive, receive_loop, first, call_func,
}

-- no response to `id`, and nothing that ends the loop in a panic
abbrev pub IsForeign : ℕ → Message → Type 0
IsForeign id (func_call none) = Unit
IsForeign id (func_call (some r)) = (r.request_id == id) ≡ false
IsForeign id (server_event e) = Unit
IsForeign id other = Unit
IsForeign id empty = ⊥
IsForeign id func_call_null = ⊥

abbrev pub AllForeign : ℕ → List Message → Type 0
AllForeign id [] = Unit
AllForeign id (message ∷ messages) = IsForeign id message × AllForeign id messages

-- The channel of `id`, and the loop going on.
abbrev Keeps : ℕ → Manager → Manager → Type 0
Keeps id m n = (find id n.resp_chans ≡ find id m.resp_chans) × (n.panicked ≡ m.panicked)

to_chan_foreign :
    (id : ℕ) (r : Response) (c : Option (List Response)) (m : Manager)
    → (r.request_id == id) ≡ false
    → Keeps id m (to_chan r c m)
unfolding to_chan
to_chan_foreign id r none m h = (refl, refl)
to_chan_foreign id r (some waiting) m h = (
  find-store id r.request_id (waiting ++ r ∷ []) m.resp_chans
      ∙ ap (λ b. if b then some (waiting ++ r ∷ []) else find id m.resp_chans) h,
  refl,
)

receive_foreign :
    (id : ℕ) (message : Message) (m : Manager)
    → IsForeign id message
    → Keeps id m (receive message m)
unfolding receive
receive_foreign id (func_call none) m h = (refl, refl)
receive_foreign id (func_call (some r)) m h =
    to_chan_foreign id r (find r.request_id m.resp_chans) m h
receive_foreign id (server_event none) m h = (refl, refl)
receive_foreign id (server_event (some e)) m h = elim (Bool-cases m.has_handler) [
  | inl has ↦ (
    ap (λ b. find id (if b then record m { handled = m.handled ++ e ∷ [] } else m).resp_chans) has,
    ap (λ b. (if b then record m { handled = m.handled ++ e ∷ [] } else m).panicked) has,
  )
  | inr lacks ↦ (
    ap (λ b. find id (if b then record m { handled = m.handled ++ e ∷ [] } else m).resp_chans)
        lacks,
    ap (λ b. (if b then record m { handled = m.handled ++ e ∷ [] } else m).panicked) lacks,
  )
]
receive_foreign id other m h = (refl, refl)
receive_foreign id empty m h = absurd h
receive_foreign id func_call_null m h = absurd h

running :
    (message : Message) (messages : List Message) (m : Manager)
    → m.panicked ≡ false
    → receive_loop (message ∷ messages) m ≡ receive_loop messages (receive message m)
unfolding receive_loop
running message messages m h =
    ap (λ b. if b then m else receive_loop messages (receive message m)) h

pub receive_loop_foreign :
    (id : ℕ) (messages : List Message) (m : Manager)
    → AllForeign id messages
    → m.panicked ≡ false
    → Keeps id m (receive_loop messages m)
unfolding receive_loop
receive_loop_foreign id [] m all ok = (refl, refl)
receive_loop_foreign id (message ∷ messages) m (h, all) ok =
    let (kept, alive) = receive_foreign id message m h in
    let (later, still) = receive_loop_foreign id messages (receive message m) all (alive ∙ ok) in
    (
      ap (λ n. find id n.resp_chans) (running message messages m ok) ∙ later ∙ kept,
      ap (λ n. n.panicked) (running message messages m ok) ∙ still ∙ alive,
    )

pub dead_loop : (l : List Message) (m : Manager) → m.panicked ≡ true → receive_loop l m ≡ m
unfolding receive_loop
dead_loop [] m d = refl
dead_loop (x ∷ l) m d = ap (λ b. if b then m else receive_loop l (receive x m)) d

receive_loop-append :
    (before after : List Message) (m : Manager)
    → receive_loop (before ++ after) m ≡ receive_loop after (receive_loop before m)
unfolding receive_loop
receive_loop-append [] after m = refl
receive_loop-append (message ∷ before) after m = elim (Bool-cases m.panicked) [
  | inl dead ↦
      ap (λ b. if b then m else receive_loop (before ++ after) (receive message m)) dead
      ∙ sym (dead_loop after m dead)
      ∙ ap (receive_loop after)
          (sym (ap (λ b. if b then m else receive_loop before (receive message m)) dead))
  | inr alive ↦
      ap (λ b. if b then m else receive_loop (before ++ after) (receive message m)) alive
      ∙ receive_loop-append before after (receive message m)
      ∙ ap (receive_loop after)
          (sym (ap (λ b. if b then m else receive_loop before (receive message m)) alive))
]

-- A channel with a response keeps it in front.
Holds : ℕ → Response → Manager → Type 0
Holds id r m = (rest : List Response) × (find id m.resp_chans ≡ some (r ∷ rest))

to_chan-Holds :
    (id : ℕ) (r x : Response) (c : Option (List Response)) (m : Manager)
    → find x.request_id m.resp_chans ≡ c
    → Holds id r m
    → Holds id r (to_chan x c m)
unfolding Holds to_chan
to_chan-Holds id r x none m e (rest, h) = (rest, h)
to_chan-Holds id r x (some waiting) m e (rest, h) = elim (Bool-cases (x.request_id == id)) [
  | inl same ↦
      let own : some waiting ≡ some (r ∷ rest) =
        sym e ∙ ap (λ k. find k m.resp_chans) ((==_iff x.request_id id).0 same) ∙ h in
      (
        rest ++ x ∷ [],
        find-store id x.request_id (waiting ++ x ∷ []) m.resp_chans
            ∙ ap (λ b. if b then some (waiting ++ x ∷ []) else find id m.resp_chans) same
            ∙ ap (λ l. some (l ++ x ∷ [])) (some-injective _ _ own),
      )
  | inr differs ↦ (
    rest,
    find-store id x.request_id (waiting ++ x ∷ []) m.resp_chans
        ∙ ap (λ b. if b then some (waiting ++ x ∷ []) else find id m.resp_chans) differs
        ∙ h,
  )
]

receive-Holds :
    (id : ℕ) (r : Response) (message : Message) (m : Manager)
    → Holds id r m
    → Holds id r (receive message m)
unfolding Holds receive
receive-Holds id r (func_call none) m h = h
receive-Holds id r (func_call (some x)) m h =
    to_chan-Holds id r x (find x.request_id m.resp_chans) m refl h
receive-Holds id r (server_event none) m h = h
receive-Holds id r (server_event (some e)) m (rest, h) = elim (Bool-cases m.has_handler) [
  | inl has ↦ (
    rest,
    ap (λ b. find id (if b then record m { handled = m.handled ++ e ∷ [] } else m).resp_chans) has
        ∙ h,
  )
  | inr lacks ↦ (
    rest,
    ap (λ b. find id (if b then record m { handled = m.handled ++ e ∷ [] } else m).resp_chans) lacks
        ∙ h,
  )
]
receive-Holds id r other m h = h
receive-Holds id r empty m h = h
receive-Holds id r func_call_null m h = h

receive_loop-Holds :
    (id : ℕ) (r : Response) (messages : List Message) (m : Manager)
    → Holds id r m
    → Holds id r (receive_loop messages m)
unfolding receive_loop
receive_loop-Holds id r [] m h = h
receive_loop-Holds id r (message ∷ messages) m h = elim (Bool-cases m.panicked) [
  | inl dead ↦
      subst (Holds id r)
        (sym (ap (λ b. if b then m else receive_loop messages (receive message m)) dead)) h
  | inr alive ↦
      subst (Holds id r) (sym (running message messages m alive))
        (receive_loop-Holds id r messages (receive message m) (receive-Holds id r message m h))
]

-- a response that finds the channel of its call empty
answered :
    (r : Response) (m : Manager)
    → find r.request_id m.resp_chans ≡ some []
    → Holds r.request_id r (receive (func_call (some r)) m)
unfolding Holds receive to_chan
answered r m h =
    let own : (r.request_id == r.request_id) ≡ true = ground arith in
    (
      [],
      ap (λ c. find r.request_id (to_chan r c m).resp_chans) h
          ∙ find-store r.request_id r.request_id (r ∷ []) m.resp_chans
          ∙ ap (λ b. if b then some (r ∷ []) else find r.request_id m.resp_chans) own,
    )

first-Holds :
    (id : ℕ) (r : Response) (m : Manager) → Holds id r m → first (find id m.resp_chans) ≡ some r
unfolding Holds
first-Holds id r m (rest, h) = ap first h

pub stored_empty :
    (id : ℕ) (chans : List (ℕ × List Response)) → find id (store id [] chans) ≡ some []
stored_empty id chans =
    let own : (id == id) ≡ true = ground arith in
    find-store id id [] chans ∙ ap (λ b. if b then some [] else find id chans) own

pub first_response :
    (r : Response) (before between after : List Message) (m : Manager)
    → m.panicked ≡ false
    → AllForeign r.request_id before
    → AllForeign r.request_id between
    → (call_func r.request_id before (between ++ func_call (some r) ∷ after) m).1 ≡ some r
unfolding call_func
first_response r before between after m alive early late =
    let sent = receive_loop before m in
    let stored : Manager = record sent { resp_chans = store r.request_id [] sent.resp_chans } in
    let on = (receive_loop_foreign r.request_id before m early alive).1 ∙ alive in
    let (chan, still) = receive_loop_foreign r.request_id between stored late on in
    let got =
      receive_loop-Holds r.request_id r after
        (receive (func_call (some r)) (receive_loop between stored))
        (answered r (receive_loop between stored)
          (chan ∙ stored_empty r.request_id sent.resp_chans)) in
    ap (λ n. first (find r.request_id n.resp_chans))
      (receive_loop-append between (func_call (some r) ∷ after) stored
        ∙ running (func_call (some r)) after (receive_loop between stored) (still ∙ on))
    ∙ first-Holds r.request_id r
        (receive_loop after (receive (func_call (some r)) (receive_loop between stored))) got
