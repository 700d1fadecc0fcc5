-- ===== src/Metrics/Sessions.antt =====
-- common/metrics/transport.go and vnet/server/loop.go: the counters of the sessions in a tick.
use go_vnet.Base.{
  ℕ, zero, suc, ◌+◌, ◌%◌, ◌^◌, ◌<◌, ◌≡◌, refl, ap, true, List, [], ◌∷◌, arith, length, ltb,
  if◌then◌else◌,
}
use go_vnet.Metrics.{
  Counter, Transport, add, delta, update_stats, update_all, update_session_metrics, update_sessions,
  tick,
}

pub data Field : Type 0 where
  rx_bytes : Field
  rx_packets : Field
  tx_bytes : Field
  tx_packets : Field

abbrev pub field : Field → Transport → Counter
field rx_bytes t = t.rx_bytes
field rx_packets t = t.rx_packets
field tx_bytes t = t.tx_bytes
field tx_packets t = t.tx_packets

abbrev pub with_field : Field → (Counter → Counter) → Transport → Transport
with_field rx_bytes f t = record t { rx_bytes = f t.rx_bytes }
with_field rx_packets f t = record t { rx_packets = f t.rx_packets }
with_field tx_bytes f t = record t { tx_bytes = f t.tx_bytes }
with_field tx_packets f t = record t { tx_packets = f t.tx_packets }

-- what happens in a network: a session counts, or the ticker ticks
pub data Event : Type 0 where
  counts : ℕ → Field → ℕ → Event
  ticks : Event

abbrev pub count_at : ℕ → Field → ℕ → List Transport → List Transport
count_at i f n [] = []
count_at zero f n (s ∷ sessions) = with_field f (add n) s ∷ sessions
count_at (suc i) f n (s ∷ sessions) = s ∷ count_at i f n sessions

abbrev pub step : Event → List Transport × Transport → List Transport × Transport
step (counts i f n) s = (count_at i f n s.0, s.1)
step ticks s = tick s

abbrev pub run : List Event → List Transport × Transport → List Transport × Transport
run [] s = s
run (e ∷ events) s = run events (step e s)

abbrev pub same_field : Field → Field → ℕ → ℕ
same_field rx_bytes rx_bytes n = n
same_field rx_packets rx_packets n = n
same_field tx_bytes tx_bytes n = n
same_field tx_packets tx_packets n = n
same_field _ _ n = 0

-- what the first `k` sessions count in a field
abbrev pub recorded : ℕ → Field → List Event → ℕ
recorded k f [] = 0
recorded k f (counts i g n ∷ events) =
    (if ltb i k then same_field f g n else 0) + recorded k f events
recorded k f (ticks ∷ events) = recorded k f events

abbrev pub totals : Field → List Transport → ℕ
totals f [] = 0
totals f (s ∷ sessions) = (field f s).total + totals f sessions

abbrev pub lasts : Field → List Transport → ℕ
lasts f [] = 0
lasts f (s ∷ sessions) = (field f s).last + lasts f sessions

-- the counters are numbers of 64 bits
abbrev pub InRange : Field → List Transport → Type 0
InRange f [] = Unit
InRange f (s ∷ sessions) =
    ((field f s).total < 2 ^ 64) × ((field f s).last < 2 ^ 64) × InRange f sessions

pub update_session_field :
    (f : Field) (s n : Transport)
    → (field f (update_session_metrics s n).0 ≡ update_stats (field f s))
      × (field f (update_session_metrics s n).1 ≡ add (update_stats (field f s)).speed (field f n))
unfolding update_session_metrics update_all
update_session_field rx_bytes s n = (refl, refl)
update_session_field rx_packets s n = (refl, refl)
update_session_field tx_bytes s n = (refl, refl)
update_session_field tx_packets s n = (refl, refl)

-- the network has the increase of the session
added :
    (c n : Counter)
    → c.total < 2 ^ 64
    → c.last < 2 ^ 64
    → ((add (update_stats c).speed n).total + c.last) % 2 ^ 64 ≡ (n.total + c.total) % 2 ^ 64
unfolding add update_stats delta
added c n t l = ground arith

pub fed :
    (f : Field) (sessions : List Transport) (n : Transport)
    → InRange f sessions
    → (((field f (update_sessions sessions n).1).total + lasts f sessions) % 2 ^ 64
        ≡ ((field f n).total + totals f sessions) % 2 ^ 64)
      × (lasts f (update_sessions sessions n).0 ≡ totals f sessions)
      × (totals f (update_sessions sessions n).0 ≡ totals f sessions)
      × InRange f (update_sessions sessions n).0
unfolding update_sessions update_stats
fed f [] n range = (refl, refl, refl, tt)
fed f (s ∷ sessions) n (t, l, range) =
    let (own, given) = update_session_field f s n in
    let (sum, last, total, kept) = fed f sessions (update_session_metrics s n).1 range in
    let total_own : (field f (update_session_metrics s n).0).total ≡ (field f s).total =
      ap (λ c. c.total) own in
    let last_own : (field f (update_session_metrics s n).0).last ≡ (field f s).total =
      ap (λ c. c.last) own in
    let given_total = ap (λ c. c.total) given in
    (
      omega (arith, sum, given_total, added (field f s) (field f n) t l),
      omega (arith, last, last_own),
      omega (arith, total, total_own),
      (omega (arith, total_own), omega (arith, last_own), kept),
    )

with_own :
    (f g : Field) (n : ℕ) (s : Transport)
    → (field f s).total < 2 ^ 64
    → ((field f (with_field g (add n) s)).total % 2 ^ 64
        ≡ ((field f s).total + same_field f g n) % 2 ^ 64)
      × ((field f (with_field g (add n) s)).last ≡ (field f s).last)
      × ((field f (with_field g (add n) s)).total < 2 ^ 64)
unfolding add
with_own rx_bytes rx_bytes n s t = (omega arith, refl, omega arith)
with_own rx_bytes rx_packets n s t = (omega arith, refl, t)
with_own rx_bytes tx_bytes n s t = (omega arith, refl, t)
with_own rx_bytes tx_packets n s t = (omega arith, refl, t)
with_own rx_packets rx_bytes n s t = (omega arith, refl, t)
with_own rx_packets rx_packets n s t = (omega arith, refl, omega arith)
with_own rx_packets tx_bytes n s t = (omega arith, refl, t)
with_own rx_packets tx_packets n s t = (omega arith, refl, t)
with_own tx_bytes rx_bytes n s t = (omega arith, refl, t)
with_own tx_bytes rx_packets n s t = (omega arith, refl, t)
with_own tx_bytes tx_bytes n s t = (omega arith, refl, omega arith)
with_own tx_bytes tx_packets n s t = (omega arith, refl, t)
with_own tx_packets rx_bytes n s t = (omega arith, refl, t)
with_own tx_packets rx_packets n s t = (omega arith, refl, t)
with_own tx_packets tx_bytes n s t = (omega arith, refl, t)
with_own tx_packets tx_packets n s t = (omega arith, refl, omega arith)

pub counted :
    (f g : Field) (i n : ℕ) (sessions : List Transport)
    → InRange f sessions
    → (totals f (count_at i g n sessions) % 2 ^ 64
        ≡ (totals f sessions + (if ltb i (length sessions) then same_field f g n else 0)) % 2 ^ 64)
      × (lasts f (count_at i g n sessions) ≡ lasts f sessions)
      × (length (count_at i g n sessions) ≡ length sessions)
      × InRange f (count_at i g n sessions)
counted f g i n [] range = (ground arith, refl, refl, tt)
counted f g zero n (s ∷ sessions) (t, l, range) =
    let (total, last, small) = with_own f g n s t in
    let first : ltb 0 (suc (length sessions)) ≡ true = ground arith in
    (
      rw first (omega (arith, total)),
      omega (arith, last),
      refl,
      (small, omega (arith, last), range),
    )
counted f g (suc i) n (s ∷ sessions) (t, l, range) =
    let (total, last, size, kept) = counted f g i n sessions range in
    let shift : ltb (suc i) (suc (length sessions)) ≡ ltb i (length sessions) = ground arith in
    (rw shift (omega (arith, total)), omega (arith, last), omega (arith, size), (t, l, kept))

pub length-update_sessions :
    (sessions : List Transport) (n : Transport)
    → length (update_sessions sessions n).0 ≡ length sessions
unfolding update_sessions
length-update_sessions [] n = refl
length-update_sessions (s ∷ sessions) n =
    omega (arith, length-update_sessions sessions (update_session_metrics s n).1)
