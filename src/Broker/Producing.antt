-- ===== src/Broker/Producing.antt =====
-- What a producer's connection does to the broker.
use message_queue.Prelude.{
  ℕ, zero, suc, ◌≤◌, ◌<◌, ◌≡◌, ap, ◌∙◌, ◌≢◌, inl, inr, some, List, [], ◌∷◌, ◌++◌, append_assoc,
  length, length-append, All, arith, Option-cases,
}
use message_queue.Prelude.Go.{Go, Go-cases, returns, panics, ◌>>=◌}
use message_queue.Protocol.{Bytes, IoError, Source, max_frame_size, read_frame}
use message_queue.Protocol.RoundTrip.{frame, length-frame, Delivers, read_frame-frame}
use message_queue.Protocol.Outcomes.{read_frame-Progress}
use message_queue.Broker.Handlers.{
  Broker, Order, deliver, Served, closed, crashed, out_of_fuel, handle_producer,
}

-- One message after the other.
unfoldable pub deliver_all : Order → Broker → List Bytes → Go Broker
deliver_all order b [] = returns b
deliver_all order b (m ∷ ms) = deliver order b m >>= λ b'. deliver_all order b' ms

-- How the handler ends after that.
abbrev pub ends : IoError → Go Broker → Served
ends e (returns b) = closed e b
ends e panics = crashed

-- The frames of a list of messages, one behind the other.
abbrev pub frames : List Bytes → Bytes
frames [] = []
frames (m ∷ ms) = frame m ++ frames ms

-- A message that `ReadFrame` takes.
abbrev pub Fits : Bytes → Type 0
Fits m = length m ≤ max_frame_size

handle_producer_step :
    (order : Order) (fuel : ℕ) (b : Broker) (r r' : Source) (array m : Bytes)
    → Delivers (read_frame r array) m r'
    → handle_producer order (suc fuel) b r array ≡ elim (deliver order b m) [
      | panics ↦ crashed
      | returns b' ↦ handle_producer order fuel b' r' (read_frame r array).array
    ]
unfolding handle_producer
handle_producer_step order fuel b r r' array m d = ground (arith, d.error, d.body_eq, d.source)

-- On a stream of frames of a megabyte at most, and behind them something that cannot be read as a
-- frame, the handler of a producer delivers the messages of the frames, in their order and each
-- once, and ends with the error that the reader answers behind them, or in a panic if a delivery
-- panics. So a connection that breaks inside a frame loses that frame only. More rounds than the
-- stream has bytes are enough.
pub handle_producer-frames :
    (order : Order) (ms : List Bytes) (tail : Bytes) (ending e : IoError) (fuel : ℕ) (b : Broker)
    (array : Bytes)
    → All Fits ms
    → length (frames ms ++ tail) < fuel
    → ((a : Bytes) → (read_frame (record { pending = tail; ending = ending }) a).error ≡ some e)
    → handle_producer order fuel b (record { pending = frames ms ++ tail; ending = ending }) array
      ≡ ends e (deliver_all order b ms)
unfolding deliver_all
handle_producer-frames order ms tail ending e zero b array fit h stop = absurd (omega arith)
handle_producer-frames order [] tail ending e (suc fuel) b array fit h stop =
    unfold handle_producer in ground (arith, stop array)
handle_producer-frames order (m ∷ ms) tail ending e (suc fuel) b array fit h stop =
    let rest : Source = record { pending = frames ms ++ tail; ending = ending } in
    let r : Source = record { pending = frame m ++ (frames ms ++ tail); ending = ending } in
    let step =
      handle_producer_step order fuel b r rest array m
        (read_frame-frame m (frames ms ++ tail) array ending fit.0) in
    let enough : length (frames ms ++ tail) < fuel = omega (
      arith,
      ap length (append_assoc (frame m) (frames ms) tail),
      length-append (frame m) (frames ms ++ tail),
      length-frame m,
    ) in
    rw (append_assoc (frame m) (frames ms) tail) (
      step ∙ elim (Go-cases (deliver order b m)) [
        | inr p ↦ rw p
        | inl (b', p) ↦ rw p (
            handle_producer-frames order ms tail ending e fuel b' (read_frame r array).array fit.1
              enough stop)
      ])

-- The handler of a producer ends on any stream: given more rounds than the stream has bytes, it
-- does not run out of them.
pub handle_producer-ne-out_of_fuel :
    (order : Order) (fuel : ℕ) (b : Broker) (r : Source) (array : Bytes)
    → length r.pending < fuel
    → handle_producer order fuel b r array ≢ out_of_fuel
unfolding handle_producer
handle_producer-ne-out_of_fuel order zero b r array h = absurd (omega arith)
handle_producer-ne-out_of_fuel order (suc fuel) b r array h =
    elim (Option-cases (read_frame r array).error) [
      | inr (e, p) ↦ rw (p, handle_producer) (λ q. cc)
      | inl p ↦ elim (Go-cases (deliver order b (read_frame r array).body)) [
        | inr d ↦ rw (p, handle_producer, d) (λ q. cc)
        | inl (b', d) ↦
            rw (p, handle_producer, d)
              (handle_producer-ne-out_of_fuel order fuel b' (read_frame r array).source
                (read_frame r array).array (omega (arith, (read_frame-Progress r array p).shorter)))
      ]
    ]
