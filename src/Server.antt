-- ===== src/Server.antt =====
-- vnet/server/server.go: the negotiation of a data connection, the loop that forwards its bytes,
-- and the choice of the limiter. What the router finds, the reads from the source and the writes to
-- the destination are arguments; a session is its quota, its bandwidth and its transport metrics
-- (common/metrics).
pub mod Forwarding
pub mod Negotiation
pub mod Limiters
pub mod Sessions
pub mod Lifecycle
mod Tests
use go_vnet.Base.{
  ℕ, zero, suc, ◌+◌, ◌%◌, ◌^◌, Bool, true, false, not, ◌&&◌, Option, none, some, List, [], ◌∷◌,
  length, take, ltb, ◌==◌, if◌then◌else◌,
}
use go_vnet.Base.Int.{ℤ, pos, ltb_ℤ}
use go_vnet.Quota.{Quota, AddResult, added, quota_exceeded, add_usage, is_exceeded}

-- `TransportMetrics`: the totals of its counters
pub record TransportMetrics : Type 0 where
  pub rx_bytes : ℕ
  pub rx_packets : ℕ
  pub tx_bytes : ℕ
  pub tx_packets : ℕ

-- `BytesCounter.Add` and `PacketCounter.Add` on uint64
abbrev pub add_uint64 : ℕ → ℕ → ℕ
add_uint64 delta total = (total + delta) % 2 ^ 64

-- the quota and the metrics of a session
pub record Usage : Type 0 where
  pub quota : Quota
  pub metrics : TransportMetrics

-- how a read ends: with more to come, at the end, or with an error
pub data ReadEnd : Type 0 where
  more : ReadEnd
  eof : ReadEnd
  read_failed : ReadEnd

-- a read of `nr` bytes, of which the destination takes `nw`, with or without an error
pub record Chunk : Type 0 where
  pub nr : ℕ
  pub nw : ℕ
  pub write_fails : Bool
  pub read_end : ReadEnd

pub data Ended : Type 0 where
  cancelled : Ended
  finished : Ended
  over_quota : Ended
  write_error : Ended
  read_error : Ended

-- what `proxy` leaves: the two sessions, `written`, how it ended, and which connection it closed
pub record Proxied : Type 0 where
  pub src : Usage
  pub dst : Usage
  pub written : ℕ
  pub ended : Ended
  pub closed_dst : Bool
  pub closed_src : Bool

unfoldable pub count_tx : ℕ → Usage → Usage
count_tx n u = record u {
  metrics = record u.metrics {
    tx_bytes = add_uint64 n u.metrics.tx_bytes;
    tx_packets = add_uint64 1 u.metrics.tx_packets;
  };
}

unfoldable pub count_rx : ℕ → Usage → Usage
count_rx n u = record u {
  metrics = record u.metrics {
    rx_bytes = add_uint64 n u.metrics.rx_bytes;
    rx_packets = add_uint64 1 u.metrics.rx_packets;
  };
}

-- `quota.AddUsage`: the session and whether it is accepted
unfoldable pub charge : ℕ → Usage → Usage × AddResult
charge n u = let r = add_usage (pos n) u.quota in (record u { quota = r.0 }, r.1)

-- the end of a round: what the read reports
unfoldable pub after_read : ReadEnd → Usage → Usage → ℕ → Proxied → Proxied
after_read more src dst written rest = rest
after_read eof src dst written rest = record {
  src = src;
  dst = dst;
  written = written;
  ended = finished;
  closed_dst = false;
  closed_src = false;
}
after_read read_failed src dst written rest = record {
  src = src;
  dst = dst;
  written = written;
  ended = read_error;
  closed_dst = false;
  closed_src = true;
}

unfoldable pub stop_over_quota : Usage → Usage → ℕ → Proxied
stop_over_quota src dst written = record {
  src = src;
  dst = dst;
  written = written;
  ended = over_quota;
  closed_dst = false;
  closed_src = false;
}

unfoldable pub stop_write_error : Usage → Usage → ℕ → Proxied
stop_write_error src dst written = record {
  src = src;
  dst = dst;
  written = written;
  ended = write_error;
  closed_dst = true;
  closed_src = false;
}

-- after the write: the receiver is charged and counts, and then an error of the write ends the loop
unfoldable pub receive_chunk :
    Chunk → Usage → Usage × AddResult → ℕ → (Usage → ℕ → Proxied) → Proxied
receive_chunk c src (dst, quota_exceeded) written next = stop_over_quota src dst written
receive_chunk c src (dst, added) written next =
    let counted = count_rx c.nw dst in
    if c.write_fails then stop_write_error src counted written else next counted (written + c.nw)

-- the sender counts and is charged
unfoldable pub send_chunk :
    Chunk → Usage × AddResult → Usage → ℕ → (Usage → Usage → ℕ → Proxied) → Proxied
send_chunk c (src, quota_exceeded) dst written next = stop_over_quota src dst written
send_chunk c (src, added) dst written next =
    receive_chunk c src (charge c.nw dst) written (next src)

-- `proxy` on the reads until its context is cancelled
unfoldable pub proxy : List Chunk → Usage → Usage → ℕ → Proxied
proxy [] src dst written = record {
  src = src;
  dst = dst;
  written = written;
  ended = cancelled;
  closed_dst = false;
  closed_src = false;
}
proxy (c ∷ chunks) src dst written =
    let next = λ (s d : Usage) (w : ℕ). after_read c.read_end s d w (proxy chunks s d w) in
    if ltb 0 c.nr
    then send_chunk c (charge c.nr (count_tx c.nr src)) dst written next
    else next src dst written

pub data ChosenLimiter : Type 0 where
  no_limiter : ChosenLimiter
  limiter_of_dst : ChosenLimiter
  limiter_of_src : ChosenLimiter

abbrev pub is_positive : ℤ → Bool
is_positive n = ltb_ℤ (pos 0) n

unfoldable pub choose_limiter : ℤ → ℤ → ChosenLimiter
choose_limiter dst_bandwidth src_bandwidth =
    if is_positive dst_bandwidth && is_positive src_bandwidth
    then (if ltb_ℤ src_bandwidth dst_bandwidth then limiter_of_dst else limiter_of_src)
    else if is_positive dst_bandwidth
    then limiter_of_dst
    else if is_positive src_bandwidth
    then limiter_of_src
    else no_limiter

abbrev pub negotiate_response_success : ℕ
negotiate_response_success = 1

abbrev pub negotiate_response_quota_exceeded : ℕ
negotiate_response_quota_exceeded = 2

pub data NegotiationError : Type 0 where
  read_timeout : NegotiationError
  route_not_found : NegotiationError
  session_type : NegotiationError

pub data Negotiated : Type 0 where
  refused : NegotiationError → Negotiated
  accepted : ℕ → Negotiated

unfoldable pub acknowledge : Quota → ℕ
acknowledge q =
    if is_exceeded q then negotiate_response_quota_exceeded else negotiate_response_success

-- the target of a route is a session, given by its number, or something else
unfoldable pub session_of : Option ℕ → Negotiated
session_of none = refused session_type
session_of (some session) = accepted session

unfoldable pub answer_route : Quota → Option (Option ℕ) → Option ℕ × Negotiated
answer_route q none = (none, refused route_not_found)
answer_route q (some target) = (some (acknowledge q), session_of target)

-- `negotiation`: the byte that is sent back, if one is, and the result. `none` is a first read that
-- does not come in time; a read takes 15 bytes at most.
unfoldable pub negotiation :
    (List ℕ → Option (Option ℕ)) → Quota → Option (List ℕ) → Option ℕ × Negotiated
negotiation route_string q none = (none, refused read_timeout)
negotiation route_string q (some sent) = answer_route q (route_string (take 15 sent))
