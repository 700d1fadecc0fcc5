-- ===== src/P2p/Agreement.antt =====
-- vnet/client/client_p2p.go: the two clients of a stream come to the same verdict.
use go_vnet.Base.{
  ℕ, ◌≡◌, refl, ap, ◌∙◌, Bool, true, false, Option, none, some, List, ◌∷◌, arith, ltb, ◌==◌,
  if◌then◌else◌, find, find-store, Bool-cases, inl, inr,
}
use go_vnet.Hub.Destination.{Conn, Destination, replaced_tx, replace_tx, p2p_instead, is_p2p}
use go_vnet.P2p.{
  Client, Call, answered, broken, close_stream, start_receiving, registered, replace_at,
  replace_p2p, ping_packet, after_ping, judged, evaluate_rx,
}

-- the stream in the place of the connection, which becomes the fallback
abbrev pub upgraded : ℕ → Destination ℕ → Destination ℕ
upgraded stream d = record d { tx = some (record { number = stream; p2p = true }); fallback = d.tx }

abbrev pub as_call : Option ℕ → Call ℕ
as_call none = broken
as_call (some verdict) = answered verdict

-- a destination that has neither a fallback nor a peer-to-peer connection
pub record IsPlain (ip : ℕ) (d : Destination ℕ) (c : Client) : Type 0 where
  pub here : find ip c.destinations ≡ some d
  pub no_fallback : d.fallback ≡ none
  pub not_p2p : is_p2p d.tx ≡ false

kept_or_new :
    (d : Destination ℕ) (c : Conn) (tx : Option Conn)
    → d.fallback ≡ none
    → ◌≡◌ {A = Destination ℕ × Bool}
        (elim tx as (λ _. Destination ℕ × Bool) [
          | none ↦ (record d { tx = some c }, true)
          | some old ↦ (record d { tx = some c; fallback = some old }, true)
        ])
        (record d { tx = some c; fallback = tx }, true)
kept_or_new d c none h = ap (λ f. (record d { tx = some c; fallback = f }, true)) h
kept_or_new d c (some old) h = refl

replace_tx-upgraded :
    (stream : ℕ) (d : Destination ℕ)
    → d.fallback ≡ none
    → is_p2p d.tx ≡ false
    → replace_tx (p2p_instead stream) d ≡ (upgraded stream d, true)
unfolding replace_tx replaced_tx p2p_instead
replace_tx-upgraded stream d h plain =
    ap
      (λ f. elim f as (λ _. Destination ℕ × Bool) [
        | some c ↦ (d, false)
        | none ↦ replaced_tx d (p2p_instead stream d.tx)
      ])
      h
    ∙ ap (λ b. replaced_tx d (if b then none else some (record { number = stream; p2p = true })))
        plain
    ∙ kept_or_new d (record { number = stream; p2p = true }) d.tx h

find-upgraded :
    (stream ip : ℕ) (d : Destination ℕ) (c : Client)
    → IsPlain ip d c
    → (find ip (replace_p2p stream ip c).destinations ≡ some (upgraded stream d))
      × ((replace_p2p stream ip c).closed ≡ c.closed)
unfolding replace_p2p replace_at registered start_receiving
find-upgraded stream ip d c plain =
    let own : (ip == ip) ≡ true = ground arith in
    let whole =
      ap (λ o. replace_at stream ip o c) plain.here
      ∙ ap (λ r. registered stream ip r (start_receiving stream c))
          (replace_tx-upgraded stream d plain.no_fallback plain.not_p2p) in
    (
      ap (λ r. find ip r.destinations) whole
          ∙ find-store ip ip (upgraded stream d) c.destinations
          ∙ ap (λ b. if b then some (upgraded stream d) else find ip c.destinations) own,
      ap (λ r. r.closed) whole,
    )

-- After an exchange over a stream that carries every packet, the side that dialed and the side that
-- accepted agree, when neither destination has a fallback or a peer-to-peer connection yet and the
-- accepting client routes the address in the packet to its destination: below a second both
-- destinations send over the stream, with their old connection as the fallback, and neither client
-- closes it; from a second on both destinations stay as they are, and both clients close the
-- stream.
pub evaluate_agree :
    (key : List ℕ → ℕ) (route : ℕ → Option ℕ) (own : List ℕ) (cost dialed accepted a b : ℕ)
    (da db : Destination ℕ) (ca cb : Client)
    → IsPlain a da ca
    → IsPlain b db cb
    → route (key (ping_packet own)) ≡ some b
    → (tx : Client) × (rx : Client) × ((after_ping cost dialed a (answered tt) (answered tt) ca).1
        ≡ tx)
      × ((evaluate_rx key route accepted
            (answered (ping_packet own))
            (answered tt)
            (as_call (after_ping cost dialed a (answered tt) (answered tt) ca).0)
            cb).0
          ≡ rx)
      × (find a tx.destinations ≡ some (if ltb cost 1000 then upgraded dialed da else da))
      × (find b rx.destinations ≡ some (if ltb cost 1000 then upgraded accepted db else db))
      × (tx.closed ≡ (if ltb cost 1000 then ca.closed else dialed ∷ ca.closed))
      × (rx.closed ≡ (if ltb cost 1000 then cb.closed else accepted ∷ cb.closed))
unfolding after_ping evaluate_rx judged close_stream
evaluate_agree key route own cost dialed accepted a b da db ca cb pa pb way =
    let (found, still) = find-upgraded dialed a da ca pa in
    let (found_b, still_b) = find-upgraded accepted b db cb pb in
    elim (Bool-cases (ltb cost 1000)) [
      | inl fast ↦
          rw (fast, way)
            (
              replace_p2p dialed a ca,
              replace_p2p accepted b cb,
              refl,
              refl,
              found,
              found_b,
              still,
              still_b,
            )
      | inr slow ↦ rw slow (
        close_stream dialed ca,
        close_stream accepted cb,
        refl,
        refl,
        pa.here,
        pb.here,
        refl,
        refl,
      )
    ]
