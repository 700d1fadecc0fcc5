-- ===== src/Hub/Destination/Once.antt =====
-- Histories of a `Destination` of vnet/client/hub/hub_tx.go whose connection has been replaced.
use mathlib.Core.Path.{subst}
use mathlib.Core.Option.{some-injective, none-ne-some}
use go_vnet.Base.{
  ℕ, ◌≡◌, refl, sym, ap, ◌∙◌, ◌⊎◌, inl, inr, Bool, true, false, Option, none, some, List, [], ◌∷◌,
  ◌++◌, ltb, length, if◌then◌else◌, ◌>>=◌, Bool-cases,
}
use go_vnet.Hub.{collect}
use go_vnet.Hub.Destination.{
  Error, write_failed, p2p_failed, Conn, Destination, Answer, Peer, replaced_tx, replace_tx, is_p2p,
  p2p_instead, replace_p2p, try_p2p, enqueue, push_tx_event, fallback_or_report_error, write_tx,
  give_back, write_collected, round_of, tx_round,
}

-- what happens to a destination: packets are pushed to it, its connection is replaced, a peer is
-- dialed, and its loop makes a round
pub data Step (P : Type 0) : Destination P → Destination P → Type 0 where
  pushes :
      (d : Destination P) (peer : Peer) (answer : Answer) (event : List P)
      → Step P d (push_tx_event peer answer event d)
  replaces : (d : Destination P) (fn : Option Conn → Option Conn) → Step P d (replace_tx fn d).0
  dials : (d : Destination P) (peer : Peer) → Step P d (try_p2p peer d).0
  rounds :
      (d e : Destination P) (max_buf : ℕ) (fails : Conn → Bool)
      → tx_round max_buf fails d ≡ some e
      → Step P d e

pub data Reach (P : Type 0) (start : Destination P) : Destination P → Type 0 where
  here : Reach P start start
  next : {d e : Destination P} → Reach P start d → Step P d e → Reach P start e

module _ {P : Type 0} where
  -- a destination whose connection `old` was replaced by `new`
  abbrev pub IsReplaced : Conn → Conn → List Error → Destination P → Type 0
  IsReplaced old new errors d =
      (d.fallback ≡ some old) × ((d.tx ≡ some new) ⊎ (d.tx ≡ some old)) × (d.errors ≡ errors)

  pub replace_tx-IsReplaced :
      (old new : Conn) (errors : List Error) (fn : Option Conn → Option Conn) (d : Destination P)
      → IsReplaced old new errors d
      → replace_tx fn d ≡ (d, false)
  unfolding replace_tx
  replace_tx-IsReplaced old new errors fn d h = rw h.0 refl

  try_p2p-IsReplaced :
      (old new : Conn) (errors : List Error) (peer : Peer) (d : Destination P)
      → IsReplaced old new errors d
      → (try_p2p peer d).0 ≡ d
  unfolding try_p2p replace_p2p
  try_p2p-IsReplaced old new errors peer d h =
      tried peer.enabled (is_p2p d.tx) peer.mapped peer.stream
    where
      tried :
          (enabled p2p mapped : Bool) (stream : Option ℕ)
          → let r : Destination P × Option Error =
              if enabled
              then (if p2p
                  then (d, none)
                  else if mapped
                  then elim stream [
                    | none ↦ (d, some p2p_failed)
                    | some n ↦ ((replace_tx (p2p_instead n) d).0, none)
                  ]
                  else (d, none))
              else (d, none) in
            r.0 ≡ d
      tried false p2p mapped stream = refl
      tried true true mapped stream = refl
      tried true false false stream = refl
      tried true false true none = refl
      tried true false true (some n) =
          ap (λ x. x.0) (replace_tx-IsReplaced old new errors (p2p_instead n) d h)

  push_tx_event-IsReplaced :
      (old new : Conn) (errors : List Error) (peer : Peer) (answer : Answer) (event : List P)
      (d : Destination P)
      → IsReplaced old new errors d
      → IsReplaced old new errors (push_tx_event peer answer event d)
  unfolding push_tx_event enqueue
  push_tx_event-IsReplaced old new errors peer answer event d (kept, inl e, same) =
      rw e (kept, inl refl, same)
  push_tx_event-IsReplaced old new errors peer answer event d (kept, inr e, same) =
      rw e (kept, inr refl, same)

  fallback_or_report_error-IsReplaced :
      (old new : Conn) (errors : List Error) (e : Error) (d : Destination P)
      → IsReplaced old new errors d
      → IsReplaced old new errors (fallback_or_report_error e d)
  unfolding fallback_or_report_error
  fallback_or_report_error-IsReplaced old new errors e d (kept, on, same) =
      rw kept (refl, inr refl, same)

  unfoldable pub wrote :
      (fails : Conn → Bool) (c : Conn) (packets : List P) (d : Destination P) → Destination P
  wrote fails c packets d =
      let w = record d { written = (c, packets) ∷ d.written } in
      if fails c then fallback_or_report_error write_failed w else w

  pub wrote_lem :
      (fails : Conn → Bool) (c : Conn) (packets : List P) (d : Destination P)
      → let w = record d { written = (c, packets) ∷ d.written } in
        (if fails c then fallback_or_report_error write_failed w else w) ≡ wrote fails c packets d
  unfolding wrote
  wrote_lem fails c packets d = refl

  pub write_tx-wrote :
      (fails : Conn → Bool) (c : Conn) (packets : List P) (d : Destination P)
      → d.tx ≡ some c
      → write_tx fails packets d ≡ some (wrote fails c packets d)
  unfolding write_tx wrote
  write_tx-wrote fails c packets d e = rw e refl

  wrote-IsReplaced :
      (old new : Conn) (errors : List Error) (fails : Conn → Bool) (c : Conn) (packets : List P)
      (d : Destination P)
      → IsReplaced old new errors d
      → IsReplaced old new errors (wrote fails c packets d)
  unfolding wrote
  wrote-IsReplaced old new errors fails c packets d h = elim (Bool-cases (fails c)) [
    | inl e ↦ rw e (
        fallback_or_report_error-IsReplaced old new errors write_failed
          (record d { written = (c, packets) ∷ d.written }) h)
    | inr e ↦ rw e h
  ]

  write_tx-IsReplaced :
      (old new : Conn) (errors : List Error) (fails : Conn → Bool) (packets : List P)
      (d : Destination P)
      → IsReplaced old new errors d
      → (e : Destination P) × (write_tx fails packets d ≡ some e) × IsReplaced old new errors e
  write_tx-IsReplaced old new errors fails packets d (kept, on, same) =
      let (c, e) = connected on in
      (
        wrote fails c packets d,
        write_tx-wrote fails c packets d e,
        wrote-IsReplaced old new errors fails c packets d (kept, on, same),
      )
    where
      connected : (d.tx ≡ some new) ⊎ (d.tx ≡ some old) → (c : Conn) × (d.tx ≡ some c)
      connected (inl e) = (new, e)
      connected (inr e) = (old, e)

  -- a round neither loses the two connections nor panics
  handed-IsReplaced :
      (old new : Conn) (errors : List Error) (fails : Conn → Bool) (b : Bool) (packets : List P)
      (d : Destination P)
      → IsReplaced old new errors d
      → (e : Destination P) × ((if b then write_tx fails packets d else some d) ≡ some e)
        × IsReplaced old new errors e
  handed-IsReplaced old new errors fails true packets d h =
      write_tx-IsReplaced old new errors fails packets d h
  handed-IsReplaced old new errors fails false packets d h = (d, refl, h)

  write_collected-IsReplaced :
      (old new : Conn) (errors : List Error) (fails : Conn → Bool) (d e : Destination P)
      (m : Option (List P × List (List P) × List (List P)))
      → write_collected fails d m ≡ some e
      → IsReplaced old new errors d
      → IsReplaced old new errors e
  unfolding write_collected give_back
  write_collected-IsReplaced old new errors fails d e none run h = absurd (none-ne-some e run)
  write_collected-IsReplaced old new errors fails d e (some (packets, returned, rest)) run h =
      let (w, done, fine) =
        handed-IsReplaced old new errors fails (ltb 0 (length packets)) packets
          (record d { events = rest }) h in
      let same : record w { recycled = w.recycled ++ returned } ≡ e =
        some-injective _ _ (sym (ap (λ o. o >>= λ w. some (give_back returned w)) done) ∙ run) in
      subst (IsReplaced old new errors) same fine

  round_of-IsReplaced :
      (old new : Conn) (errors : List Error) (max_buf : ℕ) (fails : Conn → Bool)
      (queue : List (List P)) (d e : Destination P)
      → round_of max_buf fails queue d ≡ some e
      → IsReplaced old new errors d
      → IsReplaced old new errors e
  unfolding round_of
  round_of-IsReplaced old new errors max_buf fails [] d e run h =
      subst (IsReplaced old new errors) (some-injective _ _ run) h
  round_of-IsReplaced old new errors max_buf fails (event ∷ queue) d e run h =
      write_collected-IsReplaced old new errors fails d e (collect max_buf event queue) run h

  step-IsReplaced :
      {d e : Destination P} (old new : Conn) (errors : List Error)
      → Step P d e
      → IsReplaced old new errors d
      → IsReplaced old new errors e
  unfolding tx_round
  step-IsReplaced old new errors (pushes d peer answer event) h =
      push_tx_event-IsReplaced old new errors peer answer event d h
  step-IsReplaced old new errors (replaces d fn) h =
      subst (IsReplaced old new errors)
        (sym (ap (λ x. x.0) (replace_tx-IsReplaced old new errors fn d h))) h
  step-IsReplaced old new errors (dials d peer) h =
      subst (IsReplaced old new errors) (sym (try_p2p-IsReplaced old new errors peer d h)) h
  step-IsReplaced old new errors (rounds d e max_buf fails run) h =
      round_of-IsReplaced old new errors max_buf fails d.events d e run h

  reach-IsReplaced :
      {d e : Destination P} (old new : Conn) (errors : List Error)
      → Reach P d e
      → IsReplaced old new errors d
      → IsReplaced old new errors e
  reach-IsReplaced old new errors here h = h
  reach-IsReplaced old new errors (next r s) h =
      step-IsReplaced old new errors s (reach-IsReplaced old new errors r h)

  fresh-IsReplaced :
      (old new : Conn) (fn : Option Conn → Option Conn) (d : Destination P)
      → d.tx ≡ some old
      → d.fallback ≡ none
      → fn (some old) ≡ some new
      → IsReplaced old new d.errors (replace_tx fn d).0
  unfolding replace_tx replaced_tx
  fresh-IsReplaced old new fn d on fresh chosen = rw (fresh, on, chosen) (refl, inl refl, refl)

  -- Once `ReplaceTx` has replaced the connection `old` of a destination by `new`, whatever happens
  -- later, the destination keeps `old` as its fallback and is on one of the two, `ReplaceTx`
  -- refuses every further replacement, and no failed write is ever reported by `OnError`.
  pub replace_tx_once :
      (old new : Conn) (fn later : Option Conn → Option Conn) (d e : Destination P)
      → d.tx ≡ some old
      → d.fallback ≡ none
      → fn (some old) ≡ some new
      → Reach P (replace_tx fn d).0 e
      → (e.fallback ≡ some old)
        × ((e.tx ≡ some new) ⊎ (e.tx ≡ some old))
        × (e.errors ≡ d.errors)
        × (replace_tx later e ≡ (e, false))
  replace_tx_once old new fn later d e on fresh chosen run =
      let (kept, held, same) =
        reach-IsReplaced old new d.errors run (fresh-IsReplaced old new fn d on fresh chosen) in
      (kept, held, same, replace_tx-IsReplaced old new d.errors later e (kept, held, same))
