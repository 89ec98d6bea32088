-- ===== src/Consumer.antt =====
-- cmd/consumer/main.go: the loop of the consumer process, behind the connection to the broker and to
-- the store.
pub mod Storing
pub mod Documents
pub mod Process
use message_queue.Prelude.{ℕ, zero, suc, ◌≡◌, Option, none, some, List, [], ◌∷◌, ◌++◌}
use message_queue.Prelude.Go.{Go, returns, panics, ◌>>=◌}
use message_queue.Prelude.Text.{Text, codes}
use message_queue.Protocol.{Bytes, IoError, Source, FrameRead, read_frame}
use message_queue.Storage.{Clock, Collection, Decoded, store_message}

-- What the store looks at of a message that was read: its payload, decoded, and its timestamp, none
-- where it is the zero time.
pub record Received (V Time : Type 0) : Type 0 where
  pub payload : Decoded V
  pub timestamp : Option Time

-- How the loop ends: by a read error, or in a panic. `out_of_fuel` is no end of the program's.
pub data Consumed (C : Type 0) : Type 0 where
  stopped : IoError → C → Consumed C
  crashed out_of_fuel : Consumed C

-- `clock i` is what the clock says while the message of round `i` is stored. `parse` is `json.Unmarshal` into a message, and then of its payload; none is an error.
module _ {C V Time Doc : Type 0} (api : Collection C V Time Doc)
    (parse : Bytes → Option (Received V Time)) (clock : ℕ → Clock Time) where
  abbrev pub stored : ℕ → C → Option (Received V Time) → Go C
  stored i c none = returns c
  stored i c (some m) = store_message api c (clock i) m.timestamp m.payload >>= λ r. returns r.0

  -- The rest of the loop's body: an error is logged, and the loop goes on.
  unfoldable pub consume : ℕ → C → Bytes → Go C
  consume i c body = stored i c (parse body)

  -- The loop, in round `i`. `buf = body`: the next read has the cells of the last body's slice.
  pub consume_loop : ℕ → ℕ → C → Source → Bytes → Consumed C
  consume_loop zero i c r array = out_of_fuel
  consume_loop (suc fuel) i c r array = elim (read_frame r array).error [
    | some e ↦ stopped e c
    | none ↦ elim (consume i c (read_frame r array).body) [
      | panics ↦ crashed
      | returns c' ↦
          consume_loop fuel (suc i) c' (read_frame r array).source
            ((read_frame r array).body ++ (read_frame r array).spare)
    ]
  ]
