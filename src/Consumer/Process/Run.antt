-- ===== src/Consumer/Process/Run.antt =====
-- What the consumer's process does with what the broker wrote to it.
use message_queue.Prelude.{
  ℕ, ◌≤◌, ◌<◌, ◌≡◌, ap, ◌∙◌, Option, some, List, [], append-nil, length, All,
}
use message_queue.Prelude.Text.{Text, codes}
use message_queue.Protocol.{Bytes, eof, Source, Sink}
use message_queue.Protocol.Outcomes.{ends_eof}
use message_queue.Protocol.RoundTrip.{write-ok}
use message_queue.Broker.Producing.{frames, Fits}
use message_queue.Config.{Environment}
use message_queue.Storage.{Clock, Collection}
use message_queue.Storage.Connect.{Driver, MongoStore, opened}
use message_queue.Consumer.{Received}
use message_queue.Consumer.Storing.{consume_all, stops, consume_loop-consume_all}
use message_queue.Consumer.Process.{
  main, dialled, identified, stores, exit_of, broker_addr, store_from_env,
}

module _ {K C V Time Doc : Type 0} (driver : Driver K C) (api : Collection C V Time Doc)
    (parse : Bytes → Option (Received V Time)) (clock : ℕ → Clock Time) where
  pub main-stores :
      (fuel : ℕ) (os : Environment) (dial : Text → Option (Source × Sink)) (ms : List Bytes)
      (w : Sink) (store : MongoStore K C)
      → dial (broker_addr os) ≡ some (record { pending = frames ms; ending = eof }, w)
      → 9 ≤ w.room
      → store_from_env driver os ≡ opened store
      → All Fits ms
      → length (frames ms) < fuel
      → main driver api parse clock fuel os dial
        ≡ exit_of driver api parse clock store
            (stops api parse clock eof (consume_all api parse clock 0 store.collection ms))
  unfolding main
  main-stores fuel os dial ms w store dials room opens fits h =
      let r : Source = record { pending = frames ms; ending = eof } in
      ap (dialled driver api parse clock fuel os) dials
      ∙ ap (identified driver api parse clock fuel os r) (write-ok w (codes "CONSUMER\n") room)
      ∙ ap (stores driver api parse clock fuel r) opens
      ∙ ap (exit_of driver api parse clock store) (
          rw (append-nil (frames ms)) at (
            consume_loop-consume_all api parse clock ms [] eof eof fuel 0 store.collection [] fits
              (rw (append-nil (frames ms)) h) ends_eof))
