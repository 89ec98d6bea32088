-- ===== src/Broker/Channel.antt =====
-- Go's channels of messages, as far as the broker uses them: sends that do not block, receives that do
-- and that do not, and close. A send on a closed channel panics, and so does a second close.
use message_queue.Prelude.{
  ℕ, Bool, true, false, Option, none, some, List, [], ◌∷◌, ◌++◌, length, ltb, ◌==◌, ◌||◌, ◌&&◌,
  if◌then◌else◌,
}
use message_queue.Prelude.Go.{Go, returns, panics}
use message_queue.Protocol.{Bytes}

-- `waited`: a receiver is blocked in a receive from the channel.
pub record Chan : Type 0 where
  pub buffer : List Bytes
  pub cap : ℕ
  pub closed : Bool
  pub waited : Bool

-- `make(chan []byte, n)`.
abbrev pub make_chan : ℕ → Chan
make_chan n = record { buffer = []; cap = n; closed = false; waited = false }

-- `select { case ch <- msg: … default: … }`, where no receiver blocks, as in the queue, whose receives
-- have a default too: the channel with the message, or none if it is full.
unfoldable pub try_send : Chan → Bytes → Go (Option Chan)
try_send c msg =
    if c.closed
    then panics
    else if ltb (length c.buffer) c.cap
    then returns (some (record c { buffer = c.buffer ++ (msg ∷ []) }))
    else returns none

-- A send finds room in the buffer, or, which matters for a channel without a buffer, a receiver that is
-- blocked and was handed nothing yet.
abbrev pub has_room : Chan → Bool
has_room c = ltb (length c.buffer) c.cap || c.waited && length c.buffer == 0

-- The same where a receiver may block. What a blocked receiver is handed stands in `buffer` until it
-- runs.
unfoldable pub offer : Chan → Bytes → Go (Option Chan)
offer c msg =
    if c.closed
    then panics
    else if has_room c
    then returns (some (record c { buffer = c.buffer ++ (msg ∷ []) }))
    else returns none

-- What a receive that does not block finds: a message, the end of a closed channel, or nothing.
pub data Received : Type 0 where
  message : Bytes → Chan → Received
  ended nothing : Received

abbrev receive_from : List Bytes → Chan → Received
receive_from [] c = if c.closed then ended else nothing
receive_from (m ∷ ms) c = message m (record c { buffer = ms })

unfoldable pub try_receive : Chan → Received
try_receive c = receive_from c.buffer c

-- A receive that blocks, up to where it blocks: it finds a message, the end of a closed channel, or
-- nothing, and then the receiver waits.
abbrev await_from : List Bytes → Chan → Received
await_from [] c = if c.closed then ended else nothing
await_from (m ∷ ms) c = message m (record c { buffer = ms; waited = false })

unfoldable pub await : Chan → Received
await c = await_from c.buffer c

abbrev pub with_waited : Bool → Chan → Chan
with_waited b c = record c { waited = b }

-- `close(ch)`. What is in the buffer can still be received.
unfoldable pub close_chan : Chan → Go Chan
close_chan c = if c.closed then panics else returns (record c { closed = true })
