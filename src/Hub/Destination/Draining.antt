-- ===== src/Hub/Destination/Draining.antt =====
-- The rounds of the loop of a `Destination` of vnet/client/hub/hub_tx.go, until its channel is
-- empty.
use mathlib.Core.Path.{subst}
use go_vnet.Base.{
  ℕ, zero, suc, ◌-◌, ◌≤◌, ◌≡◌, refl, sym, ap, ◌∙◌, Bool, true, false, Option, none, some, List, [],
  ◌∷◌, ◌++◌, append-nil, append_assoc, length-append, ltb, length, if◌then◌else◌, ◌>>=◌, arith,
}
use go_vnet.Hub.{collect, collect_more}
use go_vnet.Hub.Collecting.{collect_more-Taken}
use go_vnet.Hub.Destination.Once.{wrote, wrote_lem, write_tx-wrote}
use go_vnet.Hub.Destination.{
  Error, write_failed, Conn, Destination, on_error, fallback_or_report_error, write_tx, give_back,
  write_collected, round_of, tx_round,
}

module _ {P : Type 0} where
  abbrev pub drain : ℕ → ℕ → (Conn → Bool) → Destination P → Option (Destination P)
  drain zero max_buf fails d = some d
  drain (suc n) max_buf fails d = tx_round max_buf fails d >>= drain n max_buf fails

  abbrev pub AllFit : ℕ → List (List P) → Type 0
  AllFit max_buf [] = Unit
  AllFit max_buf (event ∷ events) = (length event ≤ max_buf) × AllFit max_buf events

  pub suffix-AllFit :
      (max_buf : ℕ) (xs ys : List (List P)) → AllFit max_buf (xs ++ ys) → AllFit max_buf ys
  suffix-AllFit max_buf [] ys h = h
  suffix-AllFit max_buf (x ∷ xs) ys h = suffix-AllFit max_buf xs ys h.1

  -- `d` went on to `e`, with the same events given back and waiting, and on some connection
  abbrev IsSent : Destination P → Destination P → Type 0
  IsSent d e = (e.events ≡ d.events) × (e.recycled ≡ d.recycled) × ((c : Conn) × (e.tx ≡ some c))

  fallback_or_report_error-IsSent :
      (c : Conn) (e : Error) (d : Destination P)
      → d.tx ≡ some c
      → IsSent d (fallback_or_report_error e d)
  unfolding fallback_or_report_error on_error
  fallback_or_report_error-IsSent c e d on = reported d.fallback refl
    where
      reported : (o : Option Conn) → d.fallback ≡ o → IsSent d (fallback_or_report_error e d)
      reported none q = rw q (refl, refl, (c, on))
      reported (some f) q = rw q (refl, refl, (f, refl))

  write_tx-IsSent :
      (fails : Conn → Bool) (packets : List P) (c : Conn) (d : Destination P)
      → d.tx ≡ some c
      → (e : Destination P) × (write_tx fails packets d ≡ some e) × IsSent d e
  write_tx-IsSent fails packets c d on =
      (wrote fails c packets d, write_tx-wrote fails c packets d on, kept)
    where
      after : Destination P
      after = record d { written = (c, packets) ∷ d.written }

      step :
          (b : Bool) → IsSent d (if b then fallback_or_report_error write_failed after else after)
      step true = fallback_or_report_error-IsSent c write_failed after on
      step false = (refl, refl, (c, on))

      kept : IsSent d (wrote fails c packets d)
      kept = subst (IsSent d) (wrote_lem fails c packets d) (step (fails c))

  handed-IsSent :
      (fails : Conn → Bool) (b : Bool) (packets : List P) (c : Conn) (d : Destination P)
      → d.tx ≡ some c
      → (e : Destination P) × ((if b then write_tx fails packets d else some d) ≡ some e)
        × IsSent d e
  handed-IsSent fails true packets c d on = write_tx-IsSent fails packets c d on
  handed-IsSent fails false packets c d on = (d, refl, (refl, refl, (c, on)))

  pub collect-fits :
      (max_buf : ℕ) (event : List P) (queue : List (List P))
      → length event ≤ max_buf
      → let more = collect_more (max_buf - length event) queue in
        collect max_buf event queue ≡ some (event ++ more.0, event ∷ more.1, more.2)
  unfolding collect
  collect-fits max_buf event queue fits =
      let small : ltb max_buf (length event) ≡ false = ground arith in rw small refl

  -- the events a round gives back, and those it leaves
  round_of-advances :
      (max_buf : ℕ) (fails : Conn → Bool) (event : List P) (queue : List (List P)) (c : Conn)
      (d : Destination P)
      → d.tx ≡ some c
      → length event ≤ max_buf
      → (e : Destination P) × (returned : List (List P)) × (round_of max_buf fails (event ∷ queue) d
          ≡ some e)
        × (returned ++ e.events ≡ queue)
        × (e.recycled ≡ d.recycled ++ event ∷ returned)
        × ((x : Conn) × (e.tx ≡ some x))
  unfolding round_of write_collected give_back
  round_of-advances max_buf fails event queue c d on fits =
      let more = collect_more (max_buf - length event) queue in
      let taken = record d { events = more.2 } in
      let (w, done, (waiting, back, connected)) =
        handed-IsSent fails (ltb 0 (length (event ++ more.0))) (event ++ more.0) c taken on in
      let e = record w { recycled = w.recycled ++ event ∷ more.1 } in
      (
        e,
        more.1,
        ap (write_collected fails d) (collect-fits max_buf event queue fits)
            ∙ ap (λ o. o >>= λ w. some (give_back (event ∷ more.1) w)) done,
        ap (λ l. more.1 ++ l) waiting ∙ (collect_more-Taken (max_buf - length event) queue).1,
        ap (λ l. l ++ event ∷ more.1) back,
        connected,
      )

  drain-from :
      (rounds max_buf : ℕ) (fails : Conn → Bool) (c : Conn) (d : Destination P)
      (queue : List (List P))
      → d.events ≡ queue
      → length queue ≤ rounds
      → d.tx ≡ some c
      → AllFit max_buf queue
      → (e : Destination P) × (drain rounds max_buf fails d ≡ some e)
        × (e.events ≡ [])
        × (e.recycled ≡ d.recycled ++ queue)
  unfolding tx_round round_of
  drain-from zero max_buf fails c d [] same bound on fits =
      (d, refl, same, sym (append-nil d.recycled))
  drain-from zero max_buf fails c d (event ∷ queue) same bound on fits = absurd (omega arith)
  drain-from (suc rounds) max_buf fails c d [] same bound on fits =
      let (e, run, empty, back) = drain-from rounds max_buf fails c d [] same (omega arith) on tt in
      (
        e,
        ap (λ q. round_of max_buf fails q d >>= drain rounds max_buf fails) same ∙ run,
        empty,
        back,
      )
  drain-from (suc rounds) max_buf fails c d (event ∷ queue) same bound on fits =
      let (w, returned, round, split, gone, (x, connected)) =
        round_of-advances max_buf fails event queue c d on fits.0 in
      let rest : AllFit max_buf w.events =
        suffix-AllFit max_buf returned w.events (subst (AllFit max_buf) (sym split) fits.1) in
      let fewer : length w.events ≤ rounds =
        omega (arith, bound, ap length split, length-append returned w.events) in
      let (e, run, empty, back) =
        drain-from rounds max_buf fails x w w.events refl fewer connected rest in
      (
        e,
        ap (λ q. round_of max_buf fails q d >>= drain rounds max_buf fails) same
            ∙ ap (λ o. o >>= drain rounds max_buf fails) round
            ∙ run,
        empty,
        back
            ∙ ap (λ l. l ++ w.events) gone
            ∙ append_assoc d.recycled (event ∷ returned) w.events
            ∙ ap (λ l. d.recycled ++ event ∷ l) split,
      )

  -- Let a destination have a connection, and every waiting event at most `max_buf` packets. After
  -- as many rounds of its loop as events are waiting its channel is empty, whichever writes fail:
  -- no round panics, and every event has gone back to the pool, once and in its turn.
  pub drain_empties :
      (rounds max_buf : ℕ) (fails : Conn → Bool) (c : Conn) (d : Destination P)
      → length d.events ≤ rounds
      → d.tx ≡ some c
      → AllFit max_buf d.events
      → (e : Destination P) × (drain rounds max_buf fails d ≡ some e)
        × (e.events ≡ [])
        × (e.recycled ≡ d.recycled ++ d.events)
  drain_empties rounds max_buf fails c d bound on fits =
      drain-from rounds max_buf fails c d d.events refl bound on fits
