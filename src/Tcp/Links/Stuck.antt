-- ===== src/Tcp/Links/Stuck.antt =====
-- vnet/client/hub/hub_tx.go and vnet/client/client_tcp.go: a `Destination` after a write that
-- failed.
use mathlib.Core.Path.{subst}
use go_vnet.Base.{
  ℕ, ◌<◌, ◌≤◌, ◌≡◌, refl, sym, ap, ◌∙◌, Bool, true, false, ◌||◌, Option, none, some, List, [], ◌∷◌,
  ◌++◌, arith, length, ltb, ◌>>=◌, find, Bool-cases, inl, inr,
}
use go_vnet.Hub.Destination.Draining.{AllFit}
use go_vnet.Hub.Destination.{Conn, Destination, Answer, Peer, enqueue, round_of, tx_round}
use go_vnet.Hub.Destination.Failing.{IsOn, round_of-IsOn}
use go_vnet.Tcp.Links.{TcpClient, Wire, dial, close_found, close_dst, close_conn}
use go_vnet.Tcp.Links.Sending.{
  Link, is_closed, reported, push_on, push_link, round_link, Act, pushes, sends, act, acts,
}

or_true : (b : Bool) → (b || true) ≡ true
or_true true = refl
or_true false = refl

still_closed :
    (n dst : ℕ) (o : Option ℕ) (c : TcpClient)
    → is_closed n c.closed ≡ true
    → (is_closed n (close_found o dst c).closed ≡ true) × ((close_found o dst c).opened ≡ c.opened)
unfolding close_found close_conn is_closed
still_closed n dst none c lost = (lost, refl)
still_closed n dst (some m) c lost = (ground (arith, lost), refl)

module _ {P : Type 0} where
  record IsStuck (max_buf : ℕ) (k : Conn) (dials : List ℕ) (l : Link P) : Type 0 where
    pub alone : IsOn k l.destination
    pub lost : is_closed k.number l.client.closed ≡ true
    pub undialed : l.client.opened ≡ dials
    pub waiting : AllFit max_buf l.destination.events

  reported-IsStuck :
      (max_buf dst : ℕ) (k : Conn) (dials : List ℕ) (before d : Destination P) (c : TcpClient)
      → is_closed k.number c.closed ≡ true
      → c.opened ≡ dials
      → IsOn k d
      → AllFit max_buf d.events
      → IsStuck max_buf k dials (reported dst before c d)
  unfolding reported close_dst
  reported-IsStuck max_buf dst k dials before d c lost same on fits =
      elim (Bool-cases (ltb (length before.errors) (length d.errors))) [
        | inl more ↦ rw more (
            let (closed, opened) = still_closed k.number dst (find dst c.conn) c lost in
            record { alone = on; lost = closed; undialed = opened ∙ same; waiting = fits })
        | inr none_new ↦
            rw none_new (record { alone = on; lost = lost; undialed = same; waiting = fits })
      ]

  queue_of-IsOn :
      (max_buf : ℕ) (fails : Conn → Bool) (k : Conn) (queue : List (List P)) (d : Destination P)
      → d.events ≡ queue
      → IsOn k d
      → fails k ≡ true
      → AllFit max_buf queue
      → (e : Destination P) × (round_of max_buf fails queue d ≡ some e)
        × IsOn k e
        × AllFit max_buf e.events
  unfolding round_of
  queue_of-IsOn max_buf fails k [] d same on broken fits =
      (d, refl, on, subst (AllFit max_buf) (sym same) fits)
  queue_of-IsOn max_buf fails k (event ∷ queue) d same on broken fits =
      let (e, done, kept, rest, more) =
        round_of-IsOn max_buf fails k event queue d on broken fits in
      (e, done, kept, rest)

  round_link-IsStuck :
      (dst max_buf : ℕ) (breaks : Conn → Bool) (k : Conn) (dials : List ℕ) (l : Link P)
      → IsStuck max_buf k dials l
      → (e : Link P) × (round_link dst max_buf breaks l ≡ some e) × IsStuck max_buf k dials e
  unfolding round_link tx_round
  round_link-IsStuck dst max_buf breaks k dials l s =
      let fails : Conn → Bool = λ c. breaks c || is_closed c.number l.client.closed in
      let (d, done, on, fits) =
        queue_of-IsOn max_buf fails k l.destination.events l.destination refl s.alone
          (ap (λ b. breaks k || b) s.lost ∙ or_true (breaks k)) s.waiting in
      (
        reported dst l.destination l.client d,
        ap (λ o. o >>= λ d. some (reported dst l.destination l.client d)) done,
        reported-IsStuck max_buf dst k dials l.destination d l.client s.lost s.undialed on fits,
      )

  enqueued-AllFit :
      (max_buf : ℕ) (events : List (List P)) (event : List P)
      → AllFit max_buf events
      → length event ≤ max_buf
      → AllFit max_buf (events ++ event ∷ [])
  enqueued-AllFit max_buf [] event fits short = (short, tt)
  enqueued-AllFit max_buf (e ∷ events) event fits short =
      (fits.0, enqueued-AllFit max_buf events event fits.1 short)

  -- the events that are pushed have at most `max_buf` packets
  abbrev pub AllShort : ℕ → List (Act P) → Type 0
  AllShort max_buf [] = Unit
  AllShort max_buf (pushes peer wire reply event ∷ later) =
      (length event ≤ max_buf) × AllShort max_buf later
  AllShort max_buf (sends breaks ∷ later) = AllShort max_buf later

  module _ (to4 to16 : ℕ → Option (List ℕ)) (ip dst max_buf : ℕ) (k : Conn) where
    push_link-IsStuck :
        (dials : List ℕ) (peer : Peer) (wire : Option Wire) (reply : ℕ → Answer) (event : List P)
        (l : Link P)
        → IsStuck max_buf k dials l
        → length event ≤ max_buf
        → (e : Link P) × (push_link to4 to16 ip dst peer wire reply event l ≡ some e)
          × IsStuck max_buf k dials e
    unfolding push_link push_on enqueue
    push_link-IsStuck dials peer wire reply event l s short = (
      record l { destination = enqueue event l.destination },
      ap (λ o. push_on o (dial to4 to16 ip dst wire l.client) dst peer reply event l) s.alone.0,
      record {
        alone = s.alone;
        lost = s.lost;
        undialed = s.undialed;
        waiting = enqueued-AllFit max_buf l.destination.events event s.waiting short;
      },
    )

    acts-IsStuck :
        (dials : List ℕ) (later : List (Act P)) (l : Link P)
        → IsStuck max_buf k dials l
        → AllShort max_buf later
        → (e : Link P) × (acts to4 to16 ip dst max_buf later l ≡ some e) × IsStuck max_buf k dials e
    unfolding acts act
    acts-IsStuck dials [] l s short = (l, refl, s)
    acts-IsStuck dials (pushes peer wire reply event ∷ later) l s short =
        let (m, done, t) = push_link-IsStuck dials peer wire reply event l s short.0 in
        let (e, ran, u) = acts-IsStuck dials later m t short.1 in
        (e, ap (λ o. o >>= acts to4 to16 ip dst max_buf later) done ∙ ran, u)
    acts-IsStuck dials (sends breaks ∷ later) l s short =
        let (m, done, t) = round_link-IsStuck dst max_buf breaks k dials l s in
        let (e, ran, u) = acts-IsStuck dials later m t short in
        (e, ap (λ o. o >>= acts to4 to16 ip dst max_buf later) done ∙ ran, u)

    -- the round whose write fails: the client closes the connection
    failing_round :
        (breaks : Conn → Bool) (event : List P) (queue : List (List P)) (l : Link P)
        → IsOn k l.destination
        → find dst l.client.conn ≡ some k.number
        → l.destination.events ≡ event ∷ queue
        → 0 < length event
        → AllFit max_buf (event ∷ queue)
        → breaks k ≡ true
        → (e : Link P) × (round_link dst max_buf breaks l ≡ some e)
          × IsStuck max_buf k l.client.opened e
    unfolding round_link tx_round reported close_dst close_found close_conn is_closed
    failing_round breaks event queue l on has waiting busy fits broken =
        let fails : Conn → Bool = λ c. breaks c || is_closed c.number l.client.closed in
        let (d, done, kept, rest, more) =
          round_of-IsOn max_buf fails k event queue l.destination on
            (ap (λ b. b || is_closed k.number l.client.closed) broken) fits in
        let grown : ltb (length l.destination.errors) (length d.errors) ≡ true =
          ground (arith, more busy) in
        (
          reported dst l.destination l.client d,
          ap
                (λ q. round_of max_buf fails q l.destination >>= λ d.
                  some (reported dst l.destination l.client d))
                waiting
              ∙ ap (λ o. o >>= λ d. some (reported dst l.destination l.client d)) done,
          rw (grown, has)
              (record { alone = kept; lost = ground arith; undialed = refl; waiting = rest }),
        )

    -- Let a destination send over the connection that the TCP client holds for it, without a
    -- fallback, and a write of an event with packets fail. Whatever is then pushed and sent, and
    -- whichever writes the network fails or not, the destination keeps this connection, which the
    -- client has closed, and the client opens no other; nothing panics. No peer-to-peer connection
    -- replaces it, and each event has at most `max_buf` packets.
    pub write_error-kept :
        (breaks : Conn → Bool) (event : List P) (queue : List (List P)) (l : Link P)
        (later : List (Act P))
        → l.destination.tx ≡ some k
        → l.destination.fallback ≡ none
        → find dst l.client.conn ≡ some k.number
        → l.destination.events ≡ event ∷ queue
        → 0 < length event
        → AllFit max_buf (event ∷ queue)
        → breaks k ≡ true
        → AllShort max_buf later
        → (e : Link P) × (acts to4 to16 ip dst max_buf (sends breaks ∷ later) l ≡ some e)
          × (e.destination.tx ≡ some k)
          × (is_closed k.number e.client.closed ≡ true)
          × (e.client.opened ≡ l.client.opened)
    unfolding acts act
    write_error-kept breaks event queue l later on alone has waiting busy fits broken short =
        let (m, done, s) =
          failing_round breaks event queue l (on, alone) has waiting busy fits broken in
        let (e, ran, t) = acts-IsStuck l.client.opened later m s short in
        (
          e,
          ap (λ o. o >>= acts to4 to16 ip dst max_buf later) done ∙ ran,
          t.alone.0,
          t.lost,
          t.undialed,
        )
