-- ===== src/Server/Negotiation.antt =====
-- The negotiation of a data connection between a destination of the client,
-- vnet/client/hub/hub_tx.go, and vnet/server/server.go.
use mathlib.Core.Path.{subst}
use go_vnet.Base.{
  ℕ, ◌≡◌, refl, sym, ap, ◌∙◌, Bool, true, false, Option, none, some, List, take, if◌then◌else◌,
}
use go_vnet.Quota.{Quota, is_exceeded}
use go_vnet.Hub.Destination.{
  Conn, Destination, Peer, Answer, unread, answered, p2p_failed, replaced_tx, replace_tx, is_p2p,
  p2p_instead, replace_p2p, try_p2p, negotiated, negotiate, Error,
}
use go_vnet.Server.{accepted, acknowledge, session_of, answer_route, negotiation}

-- what the destination reads of the byte that the server sends, if it sends one before it closes
abbrev pub heard : Conn → Option ℕ → Answer
heard c none = unread c
heard c (some byte) = answered c byte

module _ {P : Type 0} where
  abbrev IsConnected : Destination P → Type 0
  IsConnected d = (c : Conn) × (d.tx ≡ some c)

  replaced_tx-IsConnected :
      (o : Option Conn) (d : Destination P) → IsConnected d → IsConnected (replaced_tx d o).0
  unfolding replaced_tx
  replaced_tx-IsConnected none d h = h
  replaced_tx-IsConnected (some c) d (x, e) = rw e (c, refl)

  replace_p2p-IsConnected :
      (n : ℕ) (d : Destination P) → IsConnected d → IsConnected (replace_p2p n d)
  unfolding replace_p2p replace_tx
  replace_p2p-IsConnected n d h = by_fallback d.fallback
    where
      by_fallback :
          (o : Option Conn)
          → let r : Destination P × Bool = elim o [
            | some c ↦ (d, false)
            | none ↦ replaced_tx d (p2p_instead n d.tx)
          ] in
            IsConnected r.0
      by_fallback (some c) = h
      by_fallback none = replaced_tx-IsConnected (p2p_instead n d.tx) d h

  try_p2p-IsConnected :
      (peer : Peer) (d : Destination P) → IsConnected d → IsConnected (try_p2p peer d).0
  unfolding try_p2p
  try_p2p-IsConnected peer d h = tried peer.enabled (is_p2p d.tx) peer.mapped peer.stream
    where
      tried :
          (enabled p2p mapped : Bool) (stream : Option ℕ)
          → let r : Destination P × Option Error =
              if enabled
              then (if p2p
                  then (d, none)
                  else if mapped
                  then elim stream [
                    | none ↦ (d, some p2p_failed)
                    | some n ↦ (replace_p2p n d, none)
                  ]
                  else (d, none))
              else (d, none) in
            IsConnected r.0
      tried false p2p mapped stream = h
      tried true true mapped stream = h
      tried true false false stream = h
      tried true false true none = h
      tried true false true (some n) = replace_p2p-IsConnected n d h

  success :
      (peer : Peer) (c : Conn) (d : Destination P)
      → negotiated peer (answered c 1) d ≡ ((try_p2p peer (record d { tx = some c })).0, none)
  unfolding negotiated
  success peer c d = refl

  unconnected :
      (peer : Peer) (answer : Answer) (d : Destination P)
      → d.tx ≡ none
      → negotiate peer answer d ≡ negotiated peer answer d
  unfolding negotiate
  unconnected peer answer d off = rw off refl

  -- When the server has a session for the address that a destination asks for, and the quota of the
  -- client's own session is not exceeded, the server accepts the connection for that session and
  -- the destination has a connection and reports no error, whatever comes of P2P.
  pub negotiate-negotiation :
      (route_string : List ℕ → Option (Option ℕ)) (q : Quota) (sent : List ℕ) (session : ℕ)
      (peer : Peer) (c : Conn) (d : Destination P)
      → route_string (take 15 sent) ≡ some (some session)
      → is_exceeded q ≡ false
      → d.tx ≡ none
      → let server = negotiation route_string q (some sent) in
        let client = negotiate peer (heard c server.0) d in
        (server.1 ≡ accepted session) × (client.1 ≡ none) × ((x : Conn) × (client.0.tx ≡ some x))
  unfolding negotiation answer_route session_of acknowledge
  negotiate-negotiation route_string q sent session peer c d found within off =
      let answer : negotiation route_string q (some sent) ≡ (some 1, accepted session) =
        ap (answer_route q) found
        ∙ ap (λ b. (some (if b then 2 else 1), accepted session)) within in
      let client : negotiate peer (heard c (negotiation route_string q (some sent)).0) d
          ≡ ((try_p2p peer (record d { tx = some c })).0, none) =
        ap (λ a. negotiate peer (heard c a.0) d) answer
        ∙ unconnected peer (answered c 1) d off
        ∙ success peer c d in
      (
        ap (λ a. a.1) answer,
        ap (λ a. a.1) client,
        subst (λ (r : Destination P × Option Error). IsConnected r.0) (sym client)
            (try_p2p-IsConnected peer (record d { tx = some c }) (c, refl)),
      )
