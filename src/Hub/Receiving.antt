-- ===== src/Hub/Receiving.antt =====
-- vnet/client/hub/hub_rx.go: what the loop of `Hub.HandleRx` does with the messages that
-- `ReadMessage` gives, one after the other, until nothing more comes or the hub stops. Events go to
-- `rxEventChan`, a list, with the messages that they hold. `header` is the room in front of a
-- packet, `bufs` has the lengths of the buffers of an event and `sizes_len` that of its sizes.
use go_vnet.Base.{
  ℕ, suc, ◌+◌, ◌≤◌, ◌<◌, ◌≡◌, ◌≢◌, refl, ap, ◌∙◌, Bool, true, false, List, [], ◌∷◌, ◌++◌, map,
  arith, length, ltb, ◌==◌, if◌then◌else◌,
}
use go_vnet.Protocol.{Error, end_of_stream, invalid_magic, message_too_large, missing_compressor}
use go_vnet.Protocol.{missing_encryptor, decompression_failed, codec_failed, sizes_too_small}
use go_vnet.Protocol.{buf_too_small, Outcome, done, failed, panic}
use go_vnet.Protocol.Batches.{batch_payload, parse_batch}
use go_vnet.Protocol.Batching.{Fit, parse_batch-batch_payload}

-- how the loop ends; `blocked` is a loop that goes on
pub data End : Type 0 where
  blocked : End
  closed : Error → End
  crashed : End

-- the events that are queued, how many go back to the pool, and how many to neither
pub record RxState : Type 0 where
  pub events : List (List (List ℕ))
  pub recycled : ℕ
  pub lost : ℕ
  pub end : End

unfoldable pub stop : ℕ → End → RxState
stop returned e = record { events = []; recycled = returned; lost = 0; end = e }

unfoldable pub deliver : List (List ℕ) → RxState → RxState
deliver messages rest = record rest { events = messages ∷ rest.events }

unfoldable pub put_rx_event : RxState → RxState
put_rx_event rest = record rest { recycled = suc rest.recycled }

unfoldable pub lose : RxState → RxState
lose rest = record rest { lost = suc rest.lost }

-- the `switch`: a single packet, which a slice of the first buffer has to hold
unfoldable pub receive_packet : ℕ → List ℕ → List ℕ → RxState → RxState
receive_packet header [] packet rest = stop 0 crashed
receive_packet header (buf ∷ bufs) packet rest =
    if ltb buf (header + length packet) then stop 0 crashed else deliver (packet ∷ []) rest

-- the `switch`: a batch
unfoldable pub receive_batch : Outcome (List (List ℕ)) → RxState → RxState
receive_batch (done messages) rest = deliver messages rest
receive_batch (failed e) rest = stop 1 (closed e)
receive_batch panic rest = stop 0 crashed

-- Of another type, the event is neither queued nor given back.
unfoldable pub receive_typed : ℕ → ℕ → List ℕ → ℕ × List ℕ → RxState → RxState
receive_typed header sizes_len bufs message rest =
    if message.0 == 0
    then receive_packet header bufs message.1 rest
    else if message.0 == 1
    then receive_batch (parse_batch sizes_len bufs header message.1) rest
    else lose rest

unfoldable pub is_invalid_magic : Error → Bool
is_invalid_magic end_of_stream = false
is_invalid_magic invalid_magic = true
is_invalid_magic message_too_large = false
is_invalid_magic missing_compressor = false
is_invalid_magic missing_encryptor = false
is_invalid_magic decompression_failed = false
is_invalid_magic codec_failed = false
is_invalid_magic sizes_too_small = false
is_invalid_magic buf_too_small = false

-- one turn of the loop
unfoldable pub receive_read : ℕ → ℕ → List ℕ → Outcome (ℕ × List ℕ) → RxState → RxState
receive_read header sizes_len bufs (done message) rest =
    receive_typed header sizes_len bufs message rest
receive_read header sizes_len bufs (failed e) rest =
    if is_invalid_magic e then put_rx_event rest else stop 1 (closed e)
receive_read header sizes_len bufs panic rest = stop 0 crashed

-- the loop of `HandleRx`
unfoldable pub handle_rx : ℕ → ℕ → List ℕ → List (Outcome (ℕ × List ℕ)) → RxState
handle_rx header sizes_len bufs [] = stop 0 blocked
handle_rx header sizes_len bufs (read ∷ reads) =
    receive_read header sizes_len bufs read (handle_rx header sizes_len bufs reads)

-- what a peer sends: a packet, a batch of packets, or bytes that are no message
pub data Sent : Type 0 where
  single : List ℕ → Sent
  batch : List (List ℕ) → Sent
  noise : Sent

-- what `ReadMessage` makes of it
abbrev pub as_read : Sent → Outcome (ℕ × List ℕ)
as_read (single packet) = done (0, packet)
as_read (batch messages) = done (1, batch_payload messages)
as_read noise = failed invalid_magic

-- An event has room for each message.
abbrev pub AllFit : ℕ → ℕ → List ℕ → List Sent → Type 0
AllFit header sizes_len bufs [] = Unit
AllFit header sizes_len bufs (single packet ∷ sent) =
    Fit header (packet ∷ []) bufs × AllFit header sizes_len bufs sent
AllFit header sizes_len bufs (batch messages ∷ sent) =
    (length messages < 65536)
    × (length messages ≤ sizes_len)
    × Fit header messages bufs
    × AllFit header sizes_len bufs sent
AllFit header sizes_len bufs (noise ∷ sent) = AllFit header sizes_len bufs sent

abbrev pub events_of : List Sent → List (List (List ℕ))
events_of [] = []
events_of (single packet ∷ sent) = (packet ∷ []) ∷ events_of sent
events_of (batch messages ∷ sent) = messages ∷ events_of sent
events_of (noise ∷ sent) = events_of sent

abbrev pub noises : List Sent → ℕ
noises [] = 0
noises (single packet ∷ sent) = noises sent
noises (batch messages ∷ sent) = noises sent
noises (noise ∷ sent) = suc (noises sent)

-- the events queued, and those given back, before `rest`
unfoldable received : List Sent → RxState → RxState
received [] rest = rest
received (single packet ∷ sent) rest = deliver (packet ∷ []) (received sent rest)
received (batch messages ∷ sent) rest = deliver messages (received sent rest)
received (noise ∷ sent) rest = put_rx_event (received sent rest)

received-stop :
    (sent : List Sent) (e : End)
    → received sent (stop 1 e)
      ≡ record { events = events_of sent; recycled = suc (noises sent); lost = 0; end = e }
unfolding received stop deliver put_rx_event
received-stop [] e = refl
received-stop (single packet ∷ sent) e = ap (deliver (packet ∷ [])) (received-stop sent e)
received-stop (batch messages ∷ sent) e = ap (deliver messages) (received-stop sent e)
received-stop (noise ∷ sent) e = ap put_rx_event (received-stop sent e)

receive_packet-fits :
    (header : ℕ) (bufs packet : List ℕ) (rest : RxState)
    → Fit header (packet ∷ []) bufs
    → receive_packet header bufs packet rest ≡ deliver (packet ∷ []) rest
unfolding receive_packet
receive_packet-fits header [] packet rest fit = absurd (fit tt)
receive_packet-fits header (buf ∷ bufs) packet rest (_, roomy, _) =
    let fits : ltb buf (header + length packet) ≡ false = ground arith in rw fits refl

received_with :
    (header sizes_len : ℕ) (bufs : List ℕ) (sent : List Sent) (more : List (Outcome (ℕ × List ℕ)))
    → AllFit header sizes_len bufs sent
    → handle_rx header sizes_len bufs (map as_read sent ++ more)
      ≡ received sent (handle_rx header sizes_len bufs more)
unfolding handle_rx receive_read receive_typed receive_batch received is_invalid_magic
received_with header sizes_len bufs [] more fit = refl
received_with header sizes_len bufs (single packet ∷ sent) more (fit, fits) =
    receive_packet-fits header bufs packet
      (handle_rx header sizes_len bufs (map as_read sent ++ more)) fit
    ∙ ap (deliver (packet ∷ [])) (received_with header sizes_len bufs sent more fits)
received_with header sizes_len bufs (batch messages ∷ sent) more (few, room, fit, fits) =
    ap (λ o. receive_batch o (handle_rx header sizes_len bufs (map as_read sent ++ more)))
      (parse_batch-batch_payload messages sizes_len header bufs few room fit)
    ∙ ap (deliver messages) (received_with header sizes_len bufs sent more fits)
received_with header sizes_len bufs (noise ∷ sent) more fit =
    ap put_rx_event (received_with header sizes_len bufs sent more fit)

-- an error that is not about the magic bytes ends the loop
ends_at :
    (header sizes_len : ℕ) (bufs : List ℕ) (e : Error) (later : List (Outcome (ℕ × List ℕ)))
    → e ≢ invalid_magic
    → handle_rx header sizes_len bufs (failed e ∷ later) ≡ stop 1 (closed e)
unfolding handle_rx receive_read is_invalid_magic
ends_at header sizes_len bufs end_of_stream later other = refl
ends_at header sizes_len bufs invalid_magic later other = absurd (other refl)
ends_at header sizes_len bufs message_too_large later other = refl
ends_at header sizes_len bufs missing_compressor later other = refl
ends_at header sizes_len bufs missing_encryptor later other = refl
ends_at header sizes_len bufs decompression_failed later other = refl
ends_at header sizes_len bufs codec_failed later other = refl
ends_at header sizes_len bufs sizes_too_small later other = refl
ends_at header sizes_len bufs buf_too_small later other = refl

-- Of single packets and batches that fit an event and have wrong magic bytes between them,
-- `HandleRx` queues exactly the packets, each message in one event and in the order sent. At the
-- first other error it ends with it, whatever would follow. Each event that it took and did not
-- queue is back in the pool.
pub handle_rx-in_order :
    (header sizes_len : ℕ) (bufs : List ℕ) (sent : List Sent) (e : Error)
    (later : List (Outcome (ℕ × List ℕ)))
    → AllFit header sizes_len bufs sent
    → e ≢ invalid_magic
    → handle_rx header sizes_len bufs (map as_read sent ++ failed e ∷ later)
      ≡ record { events = events_of sent; recycled = suc (noises sent); lost = 0; end = closed e }
handle_rx-in_order header sizes_len bufs sent e later fit other =
    received_with header sizes_len bufs sent (failed e ∷ later) fit
    ∙ ap (received sent) (ends_at header sizes_len bufs e later other)
    ∙ received-stop sent (closed e)
