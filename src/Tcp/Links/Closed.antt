-- ===== src/Tcp/Links/Closed.antt =====
-- vnet/client/client_tcp.go: the connections of a TCP client are closed.
use mathlib.Core.Path.{subst, sym}
use go_vnet.Base.{
  ℕ, ◌+◌, ◌≡◌, refl, ap, ◌∙◌, true, false, Option, none, some, List, [], ◌∷◌, ◌++◌, arith, ◌==◌,
  replicate, if◌then◌else◌, find, store, Bool-cases, inl, inr, ◌⊎◌,
}
use go_vnet.Tcp.{Request, written, addressed, request, dispatch_type_ipv4, dispatch_type_control}
use go_vnet.Tcp.Links.Counting.{
  count, count-append, IsMap, empty, store-IsMap, delete-IsMap, count-store, count-delete,
}
use go_vnet.Tcp.Links.{
  TcpClient, new_tcp_client, Wire, Dispatch, succeeded, failed, acknowledged_by, dispatch,
  open_conn, close_conn, set_up_by, connect, setup, dial_new, dial_found, dial, after_handshake,
  close_found, close_dst, given, values, close, Step, dials, closes, dials_others, step, run, life,
}

-- what is open is held, and once
record IsHeld (c : TcpClient) : Type 0 where
  pub all_held :
      (n : ℕ)
      → count n c.opened
        ≡ count n c.closed
          + (count n (given c.control) + (count n (given c.rx) + count n (values c.conn)))
  pub one_each : IsMap c.conn

-- `dispatch` returns
data Ends : Dispatch → Type 0 where
  succeeds : Ends succeeded
  fails : Ends failed

acknowledged_by-Ends : (ack : Option ℕ) → Ends (acknowledged_by ack)
unfolding acknowledged_by
acknowledged_by-Ends none = fails
acknowledged_by-Ends (some ack) = elim (Bool-cases (ack == 1)) [
  | inl one ↦ rw one succeeds
  | inr other ↦ rw other fails
]

dispatch-Ends : (w : Wire) (packet : List ℕ) → Ends (dispatch w (written packet))
unfolding dispatch
dispatch-Ends w packet = elim (Bool-cases w.write_fails) [
  | inl broken ↦ subst (λ b. Ends (if b then failed else acknowledged_by w.ack)) (sym broken) fails
  | inr sound ↦
      subst (λ b. Ends (if b then failed else acknowledged_by w.ack)) (sym sound)
        (acknowledged_by-Ends w.ack)
]

failed-IsHeld : (n : ℕ) (c : TcpClient) → IsHeld c → IsHeld (close_conn n (open_conn n c))
unfolding close_conn open_conn count
failed-IsHeld n c inv = record {
  all_held = λ i. ground (arith, inv.all_held i);
  one_each = inv.one_each;
}

stored-IsHeld :
    (dst n : ℕ) (c : TcpClient)
    → find dst c.conn ≡ none
    → IsHeld c
    → IsHeld (record c { conn = store dst n c.conn; opened = n ∷ c.opened })
unfolding count
stored-IsHeld dst n c absent inv = record {
  all_held = λ i. ground (arith, inv.all_held i, count-store i dst n c.conn absent);
  one_each = store-IsMap dst n c.conn inv.one_each;
}

received-IsHeld :
    (n : ℕ) (c : TcpClient)
    → c.rx ≡ none
    → IsHeld c
    → IsHeld (record c { rx = some n; receiving = n ∷ c.receiving; opened = n ∷ c.opened })
unfolding count given
received-IsHeld n c idle inv = record {
  all_held = λ i. ground (arith, inv.all_held i, ap (λ r. count i (given r)) idle);
  one_each = inv.one_each;
}

-- with an address that has no connection, and is not the one of the session unless nothing is
-- received
connect-IsHeld :
    {o : Dispatch} (ip dst n : ℕ) (c : TcpClient)
    → Ends o
    → find dst c.conn ≡ none
    → (dst == ip) ≡ false ⊎ c.rx ≡ none
    → IsHeld c
    → IsHeld (connect o ip dst n (open_conn n c)).0
unfolding connect open_conn
connect-IsHeld ip dst n c fails absent other inv = failed-IsHeld n c inv
connect-IsHeld ip dst n c succeeds absent (inl other) inv =
    rw other (stored-IsHeld dst n c absent inv)
connect-IsHeld ip dst n c succeeds absent (inr idle) inv = elim (Bool-cases (dst == ip)) [
  | inl own ↦ rw own (received-IsHeld n c idle inv)
  | inr other ↦ rw other (stored-IsHeld dst n c absent inv)
]

requested : (w : Wire) (packet : List ℕ) (r : Request) → r ≡ written packet → Ends (dispatch w r)
requested w packet r made = subst (λ q. Ends (dispatch w q)) (sym made) (dispatch-Ends w packet)

close_found-IsHeld :
    (o : Option ℕ) (dst : ℕ) (c : TcpClient)
    → find dst c.conn ≡ o
    → IsHeld c
    → IsHeld (close_found o dst c)
unfolding close_found close_conn count
close_found-IsHeld none dst c found inv = inv
close_found-IsHeld (some n) dst c found inv = record {
  all_held = λ i. ground (arith, inv.all_held i, count-delete i dst n c.conn inv.one_each found);
  one_each = delete-IsMap dst c.conn inv.one_each;
}

close_dst-IsHeld : (dst : ℕ) (c : TcpClient) → IsHeld c → IsHeld (close_dst dst c)
unfolding close_dst
close_dst-IsHeld dst c inv = close_found-IsHeld (find dst c.conn) dst c refl inv

close_all : (c : TcpClient) (n : ℕ) → IsHeld c → count n (close c).closed ≡ count n (close c).opened
unfolding close
close_all c n inv = ground (
  arith,
  inv.all_held n,
  count-append n (values c.conn) (given c.rx ++ (given c.control ++ c.closed)),
  count-append n (given c.rx) (given c.control ++ c.closed),
  count-append n (given c.control) c.closed,
)

started : (n : ℕ) → IsHeld (open_conn n (record new_tcp_client { control = some n }))
unfolding open_conn new_tcp_client count given values
started n = record { all_held = λ i. ground arith; one_each = empty }

module _ (to4 to16 : ℕ → Option (List ℕ))
    (parses : (a : ℕ) → (bytes : List ℕ) × (to4 a ≡ some bytes)) where
  dispatch_data-Ends :
      (w : Wire) (ip dst : ℕ) → Ends (dispatch w (request to4 to16 dispatch_type_ipv4 ip dst))
  unfolding request addressed
  dispatch_data-Ends w ip dst =
      requested w (4 ∷ ((parses ip).0 ++ ((parses dst).0 ++ replicate 24 0)))
        (request to4 to16 dispatch_type_ipv4 ip dst) (rw ((parses ip).1, (parses dst).1) refl)

  dial_found-IsHeld :
      (o : Option ℕ) (ip dst : ℕ) (w : Option Wire) (c : TcpClient)
      → find dst c.conn ≡ o
      → (dst == ip) ≡ false ⊎ c.rx ≡ none
      → IsHeld c
      → IsHeld (dial_found to4 to16 o ip dst w c).0
  unfolding dial_found dial_new
  dial_found-IsHeld (some n) ip dst w c found other inv = inv
  dial_found-IsHeld none ip dst none c found other inv = inv
  dial_found-IsHeld none ip dst (some w) c found other inv =
      connect-IsHeld ip dst w.number c (dispatch_data-Ends w ip dst) found other inv

  dial-IsHeld :
      (ip dst : ℕ) (w : Option Wire) (c : TcpClient)
      → (dst == ip) ≡ false ⊎ c.rx ≡ none
      → IsHeld c
      → IsHeld (dial to4 to16 ip dst w c).0
  unfolding dial
  dial-IsHeld ip dst w c other inv = dial_found-IsHeld (find dst c.conn) ip dst w c refl other inv

  run-IsHeld :
      (ip : ℕ) (steps : List Step) (c : TcpClient)
      → dials_others ip steps ≡ true
      → IsHeld c
      → IsHeld (run to4 to16 ip steps c)
  unfolding run step dials_others
  run-IsHeld ip [] c others inv = inv
  run-IsHeld ip (dials dst w ∷ steps) c others inv =
      run-IsHeld ip steps (dial to4 to16 ip dst w c).0 (ground (arith, others))
        (dial-IsHeld ip dst w c (inl (ground (arith, others))) inv)
  run-IsHeld ip (closes dst ∷ steps) c others inv =
      run-IsHeld ip steps (close_dst dst c) others (close_dst-IsHeld dst c inv)

  acknowledged_control :
      (w : Wire)
      → w.write_fails ≡ false
      → w.ack ≡ some 1
      → dispatch w (request to4 to16 dispatch_type_control 0 0) ≡ succeeded
  unfolding dispatch request acknowledged_by
  acknowledged_control w sound ack =
      ap (λ b. if b then failed else acknowledged_by w.ack) sound ∙ ap acknowledged_by ack

  after_handshake-IsHeld :
      (ip : ℕ) (w : Wire) (rx : Option Wire)
      → w.write_fails ≡ false
      → w.ack ≡ some 1
      → IsHeld (after_handshake to4 to16 ip rx (setup to4 to16 (some w) new_tcp_client).0)
  unfolding after_handshake setup set_up_by open_conn new_tcp_client
  after_handshake-IsHeld ip w rx sound ack =
      let opened : TcpClient =
        open_conn w.number (record new_tcp_client { control = some w.number }) in
      subst (λ o. IsHeld (after_handshake to4 to16 ip rx (set_up_by o w.number opened).0))
        (sym (acknowledged_control w sound ack))
        (dial-IsHeld ip ip rx opened (inr refl) (started w.number))

  -- From `Setup` over `AfterHandshake` and any dials and closings to `Close`, the TCP client closes
  -- each connection as often as it was opened, and holds none. The server has acknowledged the
  -- control connection, package net parses all addresses, and only `AfterHandshake` dials the own
  -- address.
  pub life-closed :
      (ip : ℕ) (w : Wire) (rx : Option Wire) (steps : List Step)
      → w.write_fails ≡ false
      → w.ack ≡ some 1
      → dials_others ip steps ≡ true
      → ((n : ℕ)
          → count n (life to4 to16 ip w rx steps).closed
            ≡ count n (life to4 to16 ip w rx steps).opened)
        × ((life to4 to16 ip w rx steps).control ≡ none)
        × ((life to4 to16 ip w rx steps).rx ≡ none)
        × ((life to4 to16 ip w rx steps).conn ≡ [])
  unfolding life close
  life-closed ip w rx steps sound ack others =
      let last : TcpClient =
        run to4 to16 ip steps
          (after_handshake to4 to16 ip rx (setup to4 to16 (some w) new_tcp_client).0) in
      (
        λ n. close_all last n (
            run-IsHeld ip steps
              (after_handshake to4 to16 ip rx (setup to4 to16 (some w) new_tcp_client).0) others
              (after_handshake-IsHeld ip w rx sound ack)),
        refl,
        refl,
        refl,
      )
