-- ===== src/Metrics/Network.antt =====
-- common/metrics/transport.go and vnet/server/loop.go: what the counters of a network hold.
use go_vnet.Metrics.Sessions.{
  Field, field, Event, step, run, same_field, recorded, totals, lasts, InRange,
  update_session_field, fed, counted, length-update_sessions, rx_bytes, rx_packets, tx_bytes,
  tx_packets, counts, ticks,
}
use go_vnet.Base.{
  ℕ, zero, suc, ◌+◌, ◌%◌, ◌^◌, ◌<◌, ◌≡◌, refl, ap, ◌∙◌, List, [], ◌∷◌, arith, length, replicate,
  ltb, if◌then◌else◌,
}
use go_vnet.Metrics.{
  Counter, Transport, new_counter, new_transport, add, update_stats, update_all,
  update_session_metrics, update_sessions, tick,
}

-- The network holds what the sessions had at the last tick, and these hold what was recorded.
record IsAccounted (f : Field) (k r : ℕ) (s : List Transport × Transport) : Type 0 where
  size : length s.0 ≡ k
  range : InRange f s.0
  held : (field f s.1).total ≡ lasts f s.0 % 2 ^ 64
  sum : totals f s.0 % 2 ^ 64 ≡ r % 2 ^ 64

network_field : (f : Field) (n : Transport) → (field f (update_all n)).total ≡ (field f n).total
unfolding update_all update_stats
network_field rx_bytes n = refl
network_field rx_packets n = refl
network_field tx_bytes n = refl
network_field tx_packets n = refl

small_sessions :
    (f : Field) (sessions : List Transport) (n : Transport)
    → (field f n).total < 2 ^ 64
    → (field f (update_sessions sessions n).1).total < 2 ^ 64
unfolding update_sessions add
small_sessions f [] n small = small
small_sessions f (s ∷ sessions) n small =
    let (own, given) = update_session_field f s n in
    small_sessions f sessions (update_session_metrics s n).1 (
      omega
        (arith, ap (λ c. c.total) given, add_small (update_stats (field f s)).speed (field f n)))
  where
    add_small : (d : ℕ) (c : Counter) → (add d c).total < 2 ^ 64
    add_small d c = omega arith

tick-IsAccounted :
    (f : Field) (k r : ℕ) (s : List Transport × Transport)
    → IsAccounted f k r s
    → IsAccounted f k r (tick s)
unfolding tick
tick-IsAccounted f k r s inv =
    let (sum, last, total, kept) = fed f s.0 s.1 inv.range in
    let small = small_sessions f s.0 s.1 (omega (arith, inv.held)) in
    record {
      size = length-update_sessions s.0 s.1 ∙ inv.size;
      range = kept;
      held =
          network_field f (update_sessions s.0 s.1).1 ∙ omega (arith, sum, last, inv.held, small);
      sum = ap (λ t. t % 2 ^ 64) total ∙ inv.sum;
    }

lasts_of_tick :
    (f : Field) (s : List Transport × Transport) → InRange f s.0 → lasts f (tick s).0 ≡ totals f s.0
unfolding tick
lasts_of_tick f s range = (fed f s.0 s.1 range).1

run-IsAccounted :
    (f : Field) (k r : ℕ) (events : List Event) (s : List Transport × Transport)
    → IsAccounted f k r s
    → IsAccounted f k (r + recorded k f events) (run events s)
run-IsAccounted f k r [] s inv = record {
  size = inv.size;
  range = inv.range;
  held = inv.held;
  sum = inv.sum ∙ omega arith;
}
run-IsAccounted f k r (counts i g n ∷ events) s inv =
    let (total, last, size, kept) = counted f g i n s.0 inv.range in
    let own : (if ltb i (length s.0) then same_field f g n else 0)
        ≡ (if ltb i k then same_field f g n else 0) =
      ap (λ l. if ltb i l then same_field f g n else 0) inv.size in
    let after =
      run-IsAccounted f k (r + (if ltb i k then same_field f g n else 0)) events
        (step (counts i g n) s)
        (record {
          size = size ∙ inv.size;
          range = kept;
          held = omega (arith, inv.held, last);
          sum = omega (arith, total, own, inv.sum);
        }) in
    record {
      size = after.size;
      range = after.range;
      held = after.held;
      sum = after.sum ∙ omega arith;
    }
run-IsAccounted f k r (ticks ∷ events) s inv =
    run-IsAccounted f k r events (tick s) (tick-IsAccounted f k r s inv)

abbrev pub start : ℕ → List Transport × Transport
start k = (replicate k new_transport, new_transport)

start_field : (f : Field) → field f new_transport ≡ new_counter
start_field rx_bytes = refl
start_field rx_packets = refl
start_field tx_bytes = refl
start_field tx_packets = refl

start-IsAccounted : (f : Field) (k : ℕ) → IsAccounted f k 0 (start k)
start-IsAccounted f zero = record {
  size = refl;
  range = tt;
  held = ap (λ c. c.total) (start_field f) ∙ omega arith;
  sum = omega arith;
}
start-IsAccounted f (suc k) =
    let before = start-IsAccounted f k in
    let total = ap (λ c. c.total) (start_field f) in
    let last = ap (λ c. c.last) (start_field f) in
    record {
      size = ap suc before.size;
      range = (omega (arith, total), omega (arith, last), before.range);
      held = omega (arith, before.held, last);
      sum = omega (arith, before.sum, total);
    }

-- Of `k` sessions that start with their network, whatever they count and whenever the ticker ticks:
-- after a tick, each of the four counters of the network holds what the sessions have counted in it
-- since the start, up to the wrap-around of 64 bits.
pub tick-recorded :
    (f : Field) (k : ℕ) (events : List Event)
    → (field f (tick (run events (start k))).1).total ≡ recorded k f events % 2 ^ 64
tick-recorded f k events =
    let inv = run-IsAccounted f k 0 events (start k) (start-IsAccounted f k) in
    let after = tick-IsAccounted f k (0 + recorded k f events) (run events (start k)) inv in
    after.held ∙ omega (arith, lasts_of_tick f (run events (start k)) inv.range, inv.sum)
