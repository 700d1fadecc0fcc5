-- ===== src/Hub.antt =====
-- vnet/client/hub/hub_tx.go: what `Hub.txLoop` does with an event, a batch of packets read from the
-- device, and what `Destination.txLoopN` collects for one write. A destination is its id. Events
-- that go back to their pool are actions too. Go's map of batches is a list of its entries, and the
-- order in which the last loop goes through it is that of the list; the channels are lists.
pub mod Batches
pub mod Flushing
pub mod Delivery
pub mod Collecting
pub mod Destination
pub mod Receiving
mod Tests
use go_vnet.Base.{
  ℕ, zero, suc, ◌-◌, Bool, true, false, Option, none, some, List, [], ◌∷◌, ◌++◌, length, take, ltb,
  ◌==◌, if◌then◌else◌,
}

pub data Action (P : Type 0) : Type 0 where
  push : ℕ → List P → Action P
  recycle : List P → Action P

module _ {P : Type 0} where
  -- The packets that have a destination, `count` at most. A target is a miss, a route to no
  -- destination (`nil`, the client's own address), or a destination.
  unfoldable pub valid_routes : ℕ → List (Option (Option ℕ)) → List P → List (ℕ × P)
  valid_routes zero targets packets = []
  valid_routes (suc count) [] packets = []
  valid_routes (suc count) (t ∷ targets) [] = []
  valid_routes (suc count) (none ∷ targets) (p ∷ packets) = valid_routes (suc count) targets packets
  valid_routes (suc count) (some none ∷ targets) (p ∷ packets) =
      valid_routes (suc count) targets packets
  valid_routes (suc count) (some (some dst) ∷ targets) (p ∷ packets) =
      (dst, p) ∷ valid_routes count targets packets

  unfoldable pub all_same : ℕ → List (ℕ × P) → Bool
  all_same first [] = true
  all_same first ((dst, p) ∷ routes) = if dst == first then all_same first routes else false

  -- `dstBatches[dst.id]`, or a new event
  unfoldable pub batch_of : ℕ → List (ℕ × List P) → List P
  batch_of dst [] = []
  batch_of dst ((d, packets) ∷ batches) = if d == dst then packets else batch_of dst batches

  unfoldable pub put_batch : ℕ → List P → List (ℕ × List P) → List (ℕ × List P)
  put_batch dst batch [] = (dst, batch) ∷ []
  put_batch dst batch ((d, packets) ∷ batches) =
      if d == dst then (dst, batch) ∷ batches else (d, packets) ∷ put_batch dst batch batches

  -- `delete(dstBatches, dst.id)`
  unfoldable pub remove_batch : ℕ → List (ℕ × List P) → List (ℕ × List P)
  remove_batch dst [] = []
  remove_batch dst ((d, packets) ∷ batches) =
      let rest = remove_batch dst batches in if d == dst then rest else (d, packets) ∷ rest

  -- the loop over the routes: full batches are pushed, the others are left
  unfoldable pub aggregate :
      ℕ → List (ℕ × List P) → List (ℕ × P) → List (Action P) × List (ℕ × List P)
  aggregate batch_size batches [] = ([], batches)
  aggregate batch_size batches ((dst, p) ∷ routes) =
      let batch = batch_of dst batches ++ p ∷ [] in
      let full = length batch == batch_size in
      let rest =
        aggregate batch_size
          (if full then remove_batch dst batches else put_batch dst batch batches) routes in
      ((if full then push dst batch ∷ rest.0 else rest.0), rest.1)

  -- the loop over the remaining batches
  unfoldable pub flush : List (ℕ × List P) → List (Action P)
  flush [] = []
  flush ((dst, batch) ∷ batches) =
      (if ltb 0 (length batch) then push dst batch else recycle batch) ∷ flush batches

  unfoldable pub send_batches : ℕ → List P → List (ℕ × P) → List (Action P)
  send_batches batch_size packets routes =
      let done = aggregate batch_size [] routes in done.0 ++ recycle packets ∷ flush done.1

  -- a round of `txLoop`, with the targets and the count of `RouteBatch`
  unfoldable pub dispatch_routes : ℕ → List P → List (ℕ × P) → List (Action P)
  dispatch_routes batch_size packets [] = send_batches batch_size packets []
  dispatch_routes batch_size packets ((dst, p) ∷ routes) =
      if all_same dst routes
      then push dst packets ∷ []
      else send_batches batch_size packets ((dst, p) ∷ routes)

  unfoldable pub dispatch : ℕ → List (Option (Option ℕ)) → ℕ → List P → List (Action P)
  dispatch batch_size targets count packets =
      dispatch_routes batch_size packets (valid_routes count targets packets)

  -- The second loop of `txLoopN`: the packets and events that are taken while there is room, and
  -- the events that are left in the channel.
  unfoldable pub collect_more : ℕ → List (List P) → List P × List (List P) × List (List P)
  collect_more remaining [] = ([], [], [])
  collect_more zero (event ∷ queue) = ([], [], event ∷ queue)
  collect_more (suc remaining) (event ∷ queue) =
      let packed = take (suc remaining) event in
      let rest = collect_more (suc remaining - length packed) queue in
      (packed ++ rest.0, event ∷ rest.1, rest.2)

  -- A round of `txLoopN`: the packets that are written, the events that go back to the pool, and
  -- the channel. `none` is the panic of an event that is larger than the buffer.
  unfoldable pub collect :
      ℕ → List P → List (List P) → Option (List P × List (List P) × List (List P))
  collect max_buf event queue =
      let more = collect_more (max_buf - length event) queue in
      if ltb max_buf (length event) then none else some (event ++ more.0, event ∷ more.1, more.2)
