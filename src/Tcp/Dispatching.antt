-- ===== src/Tcp/Dispatching.antt =====
-- vnet/client/client_tcp.go and vnet/server/server_tcp.go: from the first packet of a connection to
-- where the connection goes.
use mathlib.Core.Path.{subst, sym}
use go_vnet.Base.{
  ℕ, ◌≡◌, refl, true, false, not, ◌||◌, none, ◌&&◌, Option, some, store, List, [], ◌∷◌, ◌++◌, ap,
  ◌∙◌, arith, length, length-append, take, drop, replicate, ltb, ◌==◌, if◌then◌else◌, Bool-cases,
  inl, inr, find, find-store,
}
use go_vnet.Protocol.Frames.{take-append, drop-append}
use go_vnet.Tcp.{
  dispatch_type_ipv4, written, addressed, request, TcpServer, Reply, acknowledged, waiting,
  receives, hand_over, received_from, accept_transport, established, refer, dispatch_conn,
  get_dst_transport_writer,
}

sized-take : (n : ℕ) (s t : List ℕ) → length s ≡ n → take n (s ++ t) ≡ s
sized-take n s t e = subst (λ k. take k (s ++ t) ≡ s) e (take-append s t)

sized-drop : (n : ℕ) (s t : List ℕ) → length s ≡ n → drop n (s ++ t) ≡ t
sized-drop n s t e = subst (λ k. drop k (s ++ t) ≡ t) e (drop-append s t)

module _ {C : Type 0} where
  -- the server reads back the two addresses of a request
  dispatch_conn-addressed :
      (key : List ℕ → ℕ) (conn : C) (f t : List ℕ) (s : TcpServer C)
      → length f ≡ 4
      → length t ≡ 4
      → dispatch_conn key conn (4 ∷ (f ++ (t ++ replicate 24 0))) s
        ≡ refer (find (key t) s.sessions) (key f) (key t) conn s
  unfolding dispatch_conn
  dispatch_conn-addressed key conn f t s f4 t4 =
      let long : ltb (length (f ++ (t ++ replicate 24 0))) 8 ≡ false =
        ground (arith, length-append f (t ++ replicate 24 0), length-append t (replicate 24 0)) in
      rw
        (
          long,
          sized-take 4 f (t ++ replicate 24 0) f4,
          sized-drop 4 f (t ++ replicate 24 0) f4,
          sized-take 4 t (replicate 24 0) t4,
        )
        refl

  -- what the hand-over comes to
  hand_over_lem :
      (src : ℕ) (conn : C) (s : TcpServer C)
      → ((hand_over src conn s).1 ≡ (if receives src s.receivers then acknowledged else waiting))
        × ((hand_over src conn s).0.rx ≡ s.rx)
        × ((hand_over src conn s).0.taken
            ≡ (if receives src s.receivers then s.taken ++ (src, conn) ∷ [] else s.taken))
        × ((hand_over src conn s).0.senders
            ≡ (if receives src s.receivers then s.senders else s.senders ++ (src, conn) ∷ []))
  unfolding hand_over
  hand_over_lem src conn s = elim (Bool-cases (receives src s.receivers)) [
    | inl there ↦ rw there (refl, refl, refl, refl)
    | inr away ↦ rw away (refl, refl, refl, refl)
  ]

  -- what becomes of a connection of two addresses
  abbrev pub IsEstablished : ℕ → ℕ → C → ℕ → TcpServer C → TcpServer C × Reply → Type 0
  IsEstablished src dst conn id s (t, reply) =
      let own = src == dst in
      let there = receives src s.receivers in
      (reply ≡ (if own || there then acknowledged else waiting))
      × ((k : ℕ)
          → get_dst_transport_writer k t
            ≡ (if own && (id == k) then some conn else get_dst_transport_writer k s))
      × (t.taken ≡ (if not own && there then s.taken ++ (src, conn) ∷ [] else s.taken))
      × (t.senders ≡ (if own || there then s.senders else s.senders ++ (src, conn) ∷ []))

  established-IsEstablished :
      (src dst id : ℕ) (conn : C) (s : TcpServer C)
      → IsEstablished src dst conn id s (established src dst conn id s)
  unfolding established get_dst_transport_writer
  established-IsEstablished src dst id conn s = elim (Bool-cases (src == dst)) [
    | inl same ↦ rw same (refl, λ k. find-store k id conn s.rx, refl, refl)
    | inr other ↦
        let (reply, rx, taken, senders) =
          hand_over_lem src conn (record s { transport_conn = store dst conn s.transport_conn }) in
        rw other (reply, λ k. ap (find k) rx, taken, senders)
  ]

-- When two addresses parse to four bytes each and the server has a session for the second one, the
-- client writes a packet for them. A connection of an address to itself is acknowledged, and is
-- then what is written to for that session, and to no other. Any other connection is acknowledged
-- only if the session of the first address waits in `AcceptTransport`, which then gets it; if not,
-- the dispatch waits without an acknowledgement, behind those that wait. It changes no session's
-- writer.
pub dispatch_conn-request :
    {A C : Type 0} (to4 to16 : A → Option (List ℕ)) (key : List ℕ → ℕ) (from to : A) (f t : List ℕ)
    (id : ℕ) (conn : C) (s : TcpServer C)
    → to4 from ≡ some f
    → length f ≡ 4
    → to4 to ≡ some t
    → length t ≡ 4
    → find (key t) s.sessions ≡ some id
    → (packet : List ℕ) × (request to4 to16 dispatch_type_ipv4 from to ≡ written packet)
      × IsEstablished (key f) (key t) conn id s (dispatch_conn key conn packet s)
unfolding request addressed refer
dispatch_conn-request to4 to16 key from to f t id conn s from4 f4 to4_ t4 has =
    let whole : dispatch_conn key conn (4 ∷ (f ++ (t ++ replicate 24 0))) s
        ≡ established (key f) (key t) conn id s =
      dispatch_conn-addressed key conn f t s f4 t4 ∙ ap (λ o. refer o (key f) (key t) conn s) has in
    (
      4 ∷ (f ++ (t ++ replicate 24 0)),
      rw (from4, to4_) refl,
      subst (IsEstablished (key f) (key t) conn id s) (sym whole)
          (established-IsEstablished (key f) (key t) id conn s),
    )

-- A connection that waits is the one that the session gets when it calls `AcceptTransport` next, if
-- none waited before it.
pub accept_transport-hand_over :
    {C : Type 0} (src : ℕ) (conn : C) (s : TcpServer C)
    → receives src s.receivers ≡ false
    → s.senders ≡ []
    → (accept_transport src (hand_over src conn s).0).1 ≡ some conn
unfolding accept_transport received_from hand_over find
accept_transport-hand_over src conn s away nobody =
    let own : (src == src) ≡ true = ground arith in
    rw away (
      ap
        (λ l.
          (received_from (find src (l ++ (src, conn) ∷ [])) src
            (record s { senders = l ++ (src, conn) ∷ [] })).1)
        nobody
      ∙ ap
          (λ b.
            (received_from (if b then some conn else none) src
              (record s { senders = (src, conn) ∷ [] })).1)
          own)
