-- ===== src/Server/Forwarding.antt =====
-- What `Server.proxy` of vnet/server/server.go counts of the bytes it forwards.
use go_vnet.Base.{
  ℕ, suc, ◌+◌, ◌%◌, ◌^◌, ◌≤◌, ◌≡◌, refl, ap, Bool, true, false, List, [], ◌∷◌, arith, take, ltb,
  ltb→le, if◌then◌else◌,
}
use go_vnet.Quota.{AddResult, added, quota_exceeded}
use go_vnet.Server.{
  add_uint64, Usage, ReadEnd, more, eof, read_failed, Chunk, Proxied, count_tx, count_rx, charge,
  after_read, stop_over_quota, stop_write_error, receive_chunk, send_chunk, proxy,
}

-- the bytes that are read, and those of them that the destination takes
abbrev pub read_bytes : List Chunk → ℕ
read_bytes [] = 0
read_bytes (c ∷ chunks) = c.nr + read_bytes chunks

abbrev pub taken : Chunk → ℕ
taken c = if ltb 0 c.nr then c.nw else 0

abbrev pub taken_bytes : List Chunk → ℕ
taken_bytes [] = 0
taken_bytes (c ∷ chunks) = taken c + taken_bytes chunks

-- The sender has counted the first `k` chunks, the receiver the first `j`, and `written` the first
-- `i`.
abbrev pub IsCounted : List Chunk → ℕ → ℕ → ℕ → Proxied → Type 0
IsCounted chunks tx rx written p =
    (i : ℕ) × (j : ℕ) × (k : ℕ) × (p.src.metrics.tx_bytes % 2 ^ 64
      ≡ (tx + read_bytes (take k chunks)) % 2 ^ 64)
    × (p.dst.metrics.rx_bytes % 2 ^ 64 ≡ (rx + taken_bytes (take j chunks)) % 2 ^ 64)
    × (p.written ≡ written + taken_bytes (take i chunks))
    × (i ≤ j)
    × (j ≤ k)
    × (k ≤ i + 1)

after_read-IsCounted :
    (e : ReadEnd) (c : Chunk) (chunks : List Chunk) (tx rx written w : ℕ) (src dst : Usage)
    (rest : Proxied)
    → src.metrics.tx_bytes % 2 ^ 64 ≡ (tx + c.nr) % 2 ^ 64
    → dst.metrics.rx_bytes % 2 ^ 64 ≡ (rx + taken c) % 2 ^ 64
    → w ≡ written + taken c
    → IsCounted chunks src.metrics.tx_bytes dst.metrics.rx_bytes w rest
    → IsCounted (c ∷ chunks) tx rx written (after_read e src dst w rest)
unfolding after_read
after_read-IsCounted more c chunks tx rx written w src dst rest s d h
      (i, j, k, ks, js, is, a, b, l) =
    (
      suc i,
      suc j,
      suc k,
      omega (arith, s, ks),
      omega (arith, d, js),
      omega (arith, h, is),
      omega (arith, a),
      omega (arith, b),
      omega (arith, l),
    )
after_read-IsCounted eof c chunks tx rx written w src dst rest s d h counted = (
  1,
  1,
  1,
  omega (arith, s),
  omega (arith, d),
  omega (arith, h),
  omega arith,
  omega arith,
  omega arith,
)
after_read-IsCounted read_failed c chunks tx rx written w src dst rest s d h counted = (
  1,
  1,
  1,
  omega (arith, s),
  omega (arith, d),
  omega (arith, h),
  omega arith,
  omega arith,
  omega arith,
)

-- what the next rounds come to, once the chunk has been counted
abbrev IsNext : Chunk → List Chunk → ℕ → ℕ → ℕ → (Usage → Usage → ℕ → Proxied) → Type 0
IsNext c chunks tx rx written next =
    (src dst : Usage) (w : ℕ)
    → src.metrics.tx_bytes % 2 ^ 64 ≡ (tx + c.nr) % 2 ^ 64
    → dst.metrics.rx_bytes % 2 ^ 64 ≡ (rx + taken c) % 2 ^ 64
    → w ≡ written + taken c
    → IsCounted (c ∷ chunks) tx rx written (next src dst w)

either : (B : Bool → Type 0) → B true → B false → (b : Bool) → B b
either B t f true = t
either B t f false = f

receive_chunk-IsCounted :
    (c : Chunk) (chunks : List Chunk) (tx rx written : ℕ) (src dst : Usage) (answer : AddResult)
    (next : Usage → Usage → ℕ → Proxied)
    → ltb 0 c.nr ≡ true
    → src.metrics.tx_bytes % 2 ^ 64 ≡ (tx + c.nr) % 2 ^ 64
    → dst.metrics.rx_bytes ≡ rx
    → IsNext c chunks tx rx written next
    → IsCounted (c ∷ chunks) tx rx written (receive_chunk c src (dst, answer) written (next src))
unfolding receive_chunk stop_over_quota stop_write_error count_rx
receive_chunk-IsCounted c chunks tx rx written src dst quota_exceeded next some_bytes s d go = (
  0,
  0,
  1,
  omega (arith, s),
  omega (arith, d),
  omega arith,
  omega arith,
  omega arith,
  omega arith,
)
receive_chunk-IsCounted c chunks tx rx written src dst added next some_bytes s d go =
    let all : taken c ≡ c.nw = ap (λ b. if b then c.nw else 0) some_bytes in
    let counted : add_uint64 c.nw dst.metrics.rx_bytes % 2 ^ 64 ≡ (rx + taken c) % 2 ^ 64 =
      omega (arith, d, all) in
    let done = count_rx c.nw dst in
    let ended = λ (b : Bool).
      if b then stop_write_error src done written else next src done (written + c.nw) in
    let stopped : IsCounted (c ∷ chunks) tx rx written (ended true) = (
      0,
      1,
      1,
      omega (arith, s),
      omega (arith, counted),
      omega arith,
      omega arith,
      omega arith,
      omega arith,
    ) in
    let goes_on = go src done (written + c.nw) s counted (omega (arith, all)) in
    either (λ b. IsCounted (c ∷ chunks) tx rx written (ended b)) stopped goes_on c.write_fails

send_chunk-IsCounted :
    (c : Chunk) (chunks : List Chunk) (tx rx written : ℕ) (src dst : Usage) (answer : AddResult)
    (next : Usage → Usage → ℕ → Proxied)
    → ltb 0 c.nr ≡ true
    → src.metrics.tx_bytes % 2 ^ 64 ≡ (tx + c.nr) % 2 ^ 64
    → dst.metrics.rx_bytes ≡ rx
    → IsNext c chunks tx rx written next
    → IsCounted (c ∷ chunks) tx rx written (send_chunk c (src, answer) dst written next)
unfolding send_chunk stop_over_quota charge
send_chunk-IsCounted c chunks tx rx written src dst quota_exceeded next some_bytes s d go = (
  0,
  0,
  1,
  omega (arith, s),
  omega (arith, d),
  omega arith,
  omega arith,
  omega arith,
  omega arith,
)
send_chunk-IsCounted c chunks tx rx written src dst added next some_bytes s d go =
    receive_chunk-IsCounted c chunks tx rx written src (charge c.nw dst).0 (charge c.nw dst).1 next
      some_bytes s d go

chunk-IsCounted :
    (c : Chunk) (chunks : List Chunk) (src dst : Usage) (written : ℕ) (b : Bool)
    → ltb 0 c.nr ≡ b
    → ((s d : Usage) (w : ℕ)
        → IsCounted chunks s.metrics.tx_bytes d.metrics.rx_bytes w (proxy chunks s d w))
    → let next = λ (s d : Usage) (w : ℕ). after_read c.read_end s d w (proxy chunks s d w) in
      IsCounted (c ∷ chunks) src.metrics.tx_bytes dst.metrics.rx_bytes written (
        if b
        then send_chunk c (charge c.nr (count_tx c.nr src)) dst written next
        else next src dst written)
unfolding charge count_tx
chunk-IsCounted c chunks src dst written true some_bytes go =
    let sender = count_tx c.nr src in
    send_chunk-IsCounted c chunks src.metrics.tx_bytes dst.metrics.rx_bytes written
      (charge c.nr sender).0 dst (charge c.nr sender).1
      (λ s d w. after_read c.read_end s d w (proxy chunks s d w)) some_bytes (omega arith) refl
      λ s d w hs hd hw.
        after_read-IsCounted c.read_end c chunks src.metrics.tx_bytes dst.metrics.rx_bytes written w
          s d (proxy chunks s d w) hs hd hw (go s d w)
chunk-IsCounted c chunks src dst written false nothing go =
    let none_taken : taken c ≡ 0 = ap (λ b. if b then c.nw else 0) nothing in
    let empty : c.nr ≤ 0 = ltb→le 0 c.nr nothing in
    after_read-IsCounted c.read_end c chunks src.metrics.tx_bytes dst.metrics.rx_bytes written
      written src dst (proxy chunks src dst written) (omega (arith, empty))
      (omega (arith, none_taken)) (omega (arith, none_taken)) (go src dst written)

-- The counters of `proxy` agree: the sender's is the bytes that were read, up to its wrap-around,
-- the receiver's and `written` the bytes that the destination took, all for the first chunks; and
-- where they count different numbers of chunks it is the last one, which the sender has counted
-- before the receiver and the receiver before `written`.
pub proxy-IsCounted :
    (chunks : List Chunk) (src dst : Usage) (written : ℕ)
    → IsCounted chunks src.metrics.tx_bytes dst.metrics.rx_bytes written
        (proxy chunks src dst written)
unfolding proxy
proxy-IsCounted [] src dst written =
    (0, 0, 0, omega arith, omega arith, omega arith, omega arith, omega arith, omega arith)
proxy-IsCounted (c ∷ chunks) src dst written =
    chunk-IsCounted c chunks src dst written (ltb 0 c.nr) refl λ s d w. proxy-IsCounted chunks s d w
