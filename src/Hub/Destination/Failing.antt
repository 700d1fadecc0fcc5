-- ===== src/Hub/Destination/Failing.antt =====
-- A round of the loop of a `Destination` of vnet/client/hub/hub_tx.go, without a fallback, whose
-- write fails.
use mathlib.Core.Path.{subst}
use go_vnet.Base.{
  ℕ, ◌+◌, ◌-◌, ◌<◌, ◌≡◌, refl, sym, ap, ◌∙◌, Bool, true, false, none, some, List, ◌∷◌, ◌++◌, arith,
  length, length-append, ltb, if◌then◌else◌, ◌>>=◌,
}
use go_vnet.Hub.{collect_more}
use go_vnet.Hub.Collecting.{collect_more-Taken}
use go_vnet.Hub.Destination.Once.{wrote_lem, write_tx-wrote}
use go_vnet.Hub.Destination.Draining.{AllFit, suffix-AllFit, collect-fits}
use go_vnet.Hub.Destination.{
  Error, write_failed, Conn, Destination, on_error, fallback_or_report_error, write_tx, give_back,
  write_collected, round_of,
}

module _ {P : Type 0} where
  unfoldable failed_write : Conn → List P → Destination P → Destination P
  failed_write k packets d = record d {
    written = (k, packets) ∷ d.written;
    errors = write_failed ∷ d.errors;
  }

  reports :
      (e : Error) (d : Destination P)
      → d.fallback ≡ none
      → fallback_or_report_error e d ≡ on_error e d
  unfolding fallback_or_report_error
  reports e d alone = rw alone refl

  write_tx-fails :
      (fails : Conn → Bool) (k : Conn) (packets : List P) (d : Destination P)
      → d.tx ≡ some k
      → d.fallback ≡ none
      → fails k ≡ true
      → write_tx fails packets d ≡ some (failed_write k packets d)
  unfolding failed_write on_error
  write_tx-fails fails k packets d on alone broken =
      let after : Destination P = record d { written = (k, packets) ∷ d.written } in
      write_tx-wrote fails k packets d on
      ∙ ap some (
          sym (wrote_lem fails k packets d)
          ∙ ap (λ b. if b then fallback_or_report_error write_failed after else after) broken
          ∙ reports write_failed after alone)

  -- nothing but the connection `k`
  abbrev pub IsOn : Conn → Destination P → Type 0
  IsOn k d = (d.tx ≡ some k) × (d.fallback ≡ none)

  handed-IsOn :
      (fails : Conn → Bool) (k : Conn) (b : Bool) (packets : List P) (d : Destination P)
      → IsOn k d
      → fails k ≡ true
      → (e : Destination P) × ((if b then write_tx fails packets d else some d) ≡ some e)
        × IsOn k e
        × (e.events ≡ d.events)
        × (length e.errors ≡ (if b then 1 + length d.errors else length d.errors))
  unfolding failed_write
  handed-IsOn fails k true packets d (on, alone) broken = (
    failed_write k packets d,
    write_tx-fails fails k packets d on alone broken,
    (on, alone),
    refl,
    omega arith,
  )
  handed-IsOn fails k false packets d kept broken = (d, refl, kept, refl, refl)

  -- a round for an event; an event with packets gives an error
  pub round_of-IsOn :
      (max_buf : ℕ) (fails : Conn → Bool) (k : Conn) (event : List P) (queue : List (List P))
      (d : Destination P)
      → IsOn k d
      → fails k ≡ true
      → AllFit max_buf (event ∷ queue)
      → (e : Destination P) × (round_of max_buf fails (event ∷ queue) d ≡ some e)
        × IsOn k e
        × AllFit max_buf e.events
        × (0 < length event → length d.errors < length e.errors)
  unfolding round_of write_collected give_back
  round_of-IsOn max_buf fails k event queue d kept broken fits =
      let more = collect_more (max_buf - length event) queue in
      let busy = ltb 0 (length (event ++ more.0)) in
      let (w, done, on, waiting, errors) =
        handed-IsOn fails k busy (event ++ more.0) (record d { events = more.2 }) kept broken in
      (
        record w { recycled = w.recycled ++ event ∷ more.1 },
        ap (write_collected fails d) (collect-fits max_buf event queue fits.0)
            ∙ ap (λ o. o >>= λ w. some (give_back (event ∷ more.1) w)) done,
        on,
        subst (AllFit max_buf) (sym waiting) (
            suffix-AllFit max_buf more.1 more.2 (
              subst (AllFit max_buf) (sym (collect_more-Taken (max_buf - length event) queue).1)
                fits.1)),
        λ some_packet. ground (arith, errors, some_packet, length-append event more.0),
      )
