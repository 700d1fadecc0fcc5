-- ===== src/Hub/Destination/Negotiating.antt =====
-- What `Destination.PushTxEvent` of vnet/client/hub/hub_tx.go does with an event while there is no
-- connection yet.
use go_vnet.Base.{
  ℕ, ◌-◌, ◌<◌, ◌≡◌, refl, ap, ◌∙◌, ◌⊎◌, inl, inr, Bool, true, false, none, some, List, [], ◌∷◌,
  ◌++◌, append-nil, ltb, lt→ltb, length, ◌>>=◌, Bool-cases,
}
use go_vnet.Hub.{collect, collect_more}
use go_vnet.Server.{negotiate_response_quota_exceeded}
use go_vnet.Hub.Destination.{
  Conn, Destination, Answer, answered, Peer, is_p2p, try_p2p, negotiated, negotiate, enqueue,
  push_negotiated, push_tx_event, write_tx, give_back, write_collected, round_of, tx_round,
}

-- P2P that cannot give a connection: it is off, or the destination has no known peer
abbrev pub IsIdle : Peer → Type 0
IsIdle peer = (peer.enabled ≡ false) ⊎ (peer.mapped ≡ false)

module _ {P : Type 0} where
  idle-try_p2p :
      (peer : Peer) (d : Destination P) → d.tx ≡ none → IsIdle peer → try_p2p peer d ≡ (d, none)
  unfolding try_p2p is_p2p
  idle-try_p2p peer d e (inl off) = rw off refl
  idle-try_p2p peer d e (inr unknown) = elim (Bool-cases peer.enabled) [
    | inl on ↦ rw (on, unknown, e) refl
    | inr off ↦ rw off refl
  ]

  push_tx_event-unconnected :
      (peer : Peer) (answer : Answer) (event : List P) (d : Destination P)
      → d.tx ≡ none
      → push_tx_event peer answer event d ≡ push_negotiated event (negotiated peer answer d)
  unfolding push_tx_event negotiate
  push_tx_event-unconnected peer answer event d off = rw off refl

  exceeded-try_p2p :
      (peer : Peer) (c : Conn) (d : Destination P)
      → peer.tries ≡ true
      → negotiated peer (answered c negotiate_response_quota_exceeded) d ≡ try_p2p peer d
  unfolding negotiated
  exceeded-try_p2p peer c d tries = rw tries refl

  write_tx-unconnected :
      (fails : Conn → Bool) (packets : List P) (d : Destination P)
      → d.tx ≡ none
      → write_tx fails packets d ≡ none
  unfolding write_tx
  write_tx-unconnected fails packets d off = rw off refl

  -- the round of an event without a connection
  round_unconnected :
      (max_buf : ℕ) (fails : Conn → Bool) (event : List P) (d : Destination P)
      → d.tx ≡ none
      → 0 < length event
      → write_collected fails d (collect max_buf event []) ≡ none
  unfolding write_collected collect collect_more
  round_unconnected max_buf fails event d off some_packet =
      elim (Bool-cases (ltb max_buf (length event))) [
        | inl large ↦ rw large refl
        | inr small ↦
            rw (small, append-nil event, lt→ltb 0 (length event) some_packet)
              (ap
                (λ o. o >>= λ w.
                  some (give_back (event ∷ (collect_more (max_buf - length event) []).1) w))
                (write_tx-unconnected fails event
                  (record d { events = (collect_more (max_buf - length event) []).2 }) off))
      ]

  -- If the server answers that the quota is exceeded, and P2P is off or does not know the peer,
  -- then the event is put on the channel although there is no connection, and the loop of the
  -- destination panics on the next round, whatever the connections do.
  pub push_tx_event_panics :
      (max_buf : ℕ) (fails : Conn → Bool) (peer : Peer) (c : Conn) (event : List P)
      (d : Destination P)
      → d.tx ≡ none
      → d.events ≡ []
      → peer.tries ≡ true
      → IsIdle peer
      → 0 < length event
      → tx_round max_buf fails
          (push_tx_event peer (answered c negotiate_response_quota_exceeded) event d)
        ≡ none
  unfolding tx_round round_of enqueue push_negotiated
  push_tx_event_panics max_buf fails peer c event d off empty tries idle some_packet =
      let queued : push_tx_event peer (answered c negotiate_response_quota_exceeded) event d
          ≡ enqueue event d =
        push_tx_event-unconnected peer (answered c negotiate_response_quota_exceeded) event d off
        ∙ ap (push_negotiated event)
            (exceeded-try_p2p peer c d tries ∙ idle-try_p2p peer d off idle) in
      ap (tx_round max_buf fails) queued
      ∙ ap (λ q. round_of max_buf fails (q ++ event ∷ []) (enqueue event d)) empty
      ∙ round_unconnected max_buf fails event (enqueue event d) off some_packet
