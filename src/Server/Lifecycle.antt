-- ===== src/Server/Lifecycle.antt =====
-- What stays of a session in the maps of the server, vnet/server/server.go.
use mathlib.Core.Path.{subst}
use mathlib.Core.Option.{some-injective}
use go_vnet.Base.{
  ℕ, ◌≡◌, refl, sym, ap, ◌∙◌, inl, inr, true, false, Option, none, some, List, [], ◌∷◌, arith, ◌==◌,
  if◌then◌else◌, find, store, delete, find-store, find-delete, Bool-cases,
}
use go_vnet.Server.Sessions.{
  Session, Server, new_session, acquire_device, store_session, close_session, release_device,
  unregister_session, release_session, forget_session, release, login_again, Outcome,
  handshake_failed, assign_failed, quotas_missing, adaptor_failed, quota_failed, served,
  assign_address, check_session, checked, check_status,
}

-- the session, the route, the device and the assignment of an address
abbrev pub Entry : Type 0
Entry = Option Session × Option ℕ × Option ℕ × Option ℕ

abbrev pub entry : ℕ → Server → Entry
entry ip s = (find ip s.sessions, find ip s.routes, find ip s.devices, find ip s.addresses)

-- the entry of an address when the last session of the client, at another address or at this one,
-- has been released: the map of sessions keeps that session
abbrev pub freed : Option (ℕ × ℕ) → ℕ → Entry → Entry
freed none x old = old
freed (some (ip, last)) x (session, route, device, assigned) =
    if ip == x then (session, none, none, none) else (session, route, device, assigned)

-- the entries that the end of a session finds, as to its last session
abbrev pub found : Outcome → Option (ℕ × ℕ) → ℕ → Entry → Entry
found handshake_failed last x old = old
found assign_failed last x old = freed last x old
found quotas_missing last x old = freed last x old
found adaptor_failed last x old = freed last x old
found quota_failed last x old = freed last x old
found served last x old = freed last x old

-- the entry that the end of a session leaves at its own address
abbrev pub left : Outcome → ℕ → Entry → Entry
left handshake_failed id old = old
left assign_failed id old = old
left quotas_missing id (session, route, device, assigned) = (session, route, device, some id)
left adaptor_failed id old = (some (new_session id), some id, some id, some id)
left quota_failed id old = (some (new_session id), some id, some id, some id)
left served id old = (none, none, none, none)

store_self :
    {V : Type 0} (k : ℕ) (v : V) (entries : List (ℕ × V)) → find k (store k v entries) ≡ some v
store_self k v entries =
    let own : (k == k) ≡ true = ground arith in
    find-store k k v entries ∙ ap (λ b. if b then some v else find k entries) own

delete_self : {V : Type 0} (k : ℕ) (entries : List (ℕ × V)) → find k (delete k entries) ≡ none
delete_self k entries =
    let own : (k == k) ≡ true = ground arith in
    find-delete k k entries ∙ ap (λ b. if b then none else find k entries) own

-- the rounds of `checkStatusLoop` at the times
abbrev pub rounds : List ℕ → List (ℕ × Session) → List (ℕ × Session)
rounds [] sessions = sessions
rounds (now ∷ times) sessions = rounds times (check_status now sessions)

-- a session without a ping
abbrev pub IsSilent : Option Session → Type 0
IsSilent o = (ss : Session) × (o ≡ some ss) × (ss.last_ping ≡ none)

checked_other :
    (k ip : ℕ) (o : Option Session) (rest : List (ℕ × Session))
    → (k == ip) ≡ false
    → find ip (checked k o rest) ≡ find ip rest
unfolding find checked
checked_other k ip none rest apart = refl
checked_other k ip (some ss) rest apart = rw apart refl

checked-IsSilent :
    (now k ip : ℕ) (ss : Session) (rest : List (ℕ × Session))
    → (k == ip) ≡ true
    → ss.last_ping ≡ none
    → IsSilent (find ip (checked k (check_session now ss.last_ping ss) rest))
unfolding find checked check_session
checked-IsSilent now k ip ss rest own silent =
    let kept = record ss { seen = some now } in
    (
      kept,
      ap (λ o. find ip (checked k (check_session now o ss) rest)) silent
          ∙ ap (λ b. if b then some kept else find ip rest) own,
      silent,
    )

round-IsSilent :
    (now ip : ℕ) (sessions : List (ℕ × Session))
    → IsSilent (find ip sessions)
    → IsSilent (find ip (check_status now sessions))
unfolding find check_status
round-IsSilent now ip [] h = h
round-IsSilent now ip ((k, held) ∷ sessions) (ss, e, silent) = elim (Bool-cases (k == ip)) [
  | inl own ↦
      let same : held ≡ ss =
        some-injective _ _ (sym (ap (λ b. if b then some held else find ip sessions) own) ∙ e) in
      checked-IsSilent now k ip held (check_status now sessions) own
        (ap (λ x. x.last_ping) same ∙ silent)
  | inr apart ↦
      let rest : find ip sessions ≡ some ss =
        sym (ap (λ b. if b then some held else find ip sessions) apart) ∙ e in
      subst IsSilent
        (sym (
          checked_other k ip (check_session now held.last_ping held) (check_status now sessions)
            apart))
        (round-IsSilent now ip sessions (ss, rest, silent))
]

-- A session that has sent no ping yet stays in the map of sessions however many rounds
-- `checkStatusLoop` makes, at whatever times: the time that it stores for the session is not the
-- one that it reads.
pub rounds-IsSilent :
    (times : List ℕ) (ip : ℕ) (sessions : List (ℕ × Session))
    → IsSilent (find ip sessions)
    → IsSilent (find ip (rounds times sessions))
rounds-IsSilent [] ip sessions h = h
rounds-IsSilent (now ∷ times) ip sessions h =
    rounds-IsSilent times ip (check_status now sessions) (round-IsSilent now ip sessions h)

entry-login_again :
    (ip last id : ℕ) (s : Server)
    → entry ip (login_again ip last id s) ≡ (some (new_session id), some id, some id, some id)
unfolding login_again store_session acquire_device assign_address
entry-login_again ip last id s =
    let free = release_session ip last s in
    rw
      (
        store_self ip (new_session id) free.sessions,
        store_self ip id free.routes,
        store_self ip id free.devices,
        store_self ip id free.addresses,
      )
      refl

-- When a client connects again and is given the address of its last session, the new session has
-- its entry, its route, its device and its assignment. But when the loop of the last session, which
-- has been stopped, releases the address a second time, the new session loses all four.
pub login_again-release :
    (ip last id : ℕ) (s : Server)
    → (entry ip (login_again ip last id s) ≡ (some (new_session id), some id, some id, some id))
      × (entry ip (release ip last (login_again ip last id s)) ≡ (none, none, none, none))
unfolding release forget_session release_session unregister_session close_session release_device
login_again-release ip last id s =
    let again = login_again ip last id s in
    (
      entry-login_again ip last id s,
      rw
          (
            delete_self ip again.sessions,
            delete_self ip again.routes,
            delete_self ip again.devices,
            delete_self ip again.addresses,
          )
          refl,
    )
