-- ===== src/Buffered.antt =====
-- `buffered_stream` of include/asioext/experimental/buffered_stream.hpp, its writing half: a buffer
-- that the client appends to, and one that is being written to the stream below.
--
-- The buffers are those of LinearBuffer, with an allocator that moves along. `asio::write` and
-- `asio::async_write` are a parameter: what they answer, and how many bytes the stream took; as
-- their documentation says, they consume just these, an asynchronous write in its end. The bytes of an
-- asynchronous write are those that were in the buffer when it started, and the stream takes them
-- piece by piece; Order shows that they stay in the buffer. `sent` are the bytes that it took so far.
pub mod Order
pub mod Stuck
pub mod Drain
use asio_extensions.Prelude.{
  ℕ, ◌+◌, min, Bool, true, false, ◌&&◌, not, List, [], ◌∷◌, ◌++◌, Option, none, some, ◌==◌,
  if◌then◌else◌, Bytes, take, drop, length,
}
use asio_extensions.LinearBuffer.{
  Allocator, Outcome, ok, throw, Buffer, contents, clear, move, move_assign_propagate, append,
}
use asio_extensions.DynamicBuffer.{npos, make, consume}

-- an `error_code`
pub data Ec : Type 0 where
  no_error already_started : Ec
  failed : ℕ → Ec

abbrev pub is_error : Ec → Bool
is_error no_error = false
is_error already_started = true
is_error (failed e) = true

-- an `asio::async_write` that was started: what the stream has not taken of its bytes, and how many it
-- has
pub record Write : Type 0 where
  pub rest : Bytes
  pub written : ℕ

-- `in_flight` is the write between the two halves of an asynchronous flush.
pub record Stream : Type 0 where
  pub flush_pending : Bool
  pub write_buffer : Buffer
  pub write_buffer_locked : Buffer
  pub read_buffer : Buffer
  pub in_flight : Option Write
  pub sent : Bytes

-- `std::swap`
pub swap : Buffer → Buffer → Buffer × Buffer
unfolding move move_assign_propagate
swap a b =
    let (tmp, a') = move a in
    let (a'', b') = move_assign_propagate a' b in
    let (b'', tmp') = move_assign_propagate b' tmp in (a'', b'')

abbrev pub set_write_buffers : Bool → Buffer × Buffer → Stream → Stream
set_write_buffers pending (w, l) s = record s {
  flush_pending = pending;
  write_buffer = w;
  write_buffer_locked = l;
}

abbrev pub can_flush : Stream → Bool
can_flush s = not s.flush_pending && not (s.write_buffer.size == 0)

-- The code is left as it was where it is not set.
pub lock_write_buffers : Ec → Stream → Stream × Ec
unfolding swap
lock_write_buffers ec s =
    if s.flush_pending
    then (s, already_started)
    else if s.write_buffer_locked.size == 0 && not (s.write_buffer.size == 0)
    then (set_write_buffers true (swap s.write_buffer s.write_buffer_locked) s, ec)
    else (set_write_buffers true (s.write_buffer, s.write_buffer_locked) s, ec)

abbrev pub unlock_write_buffers : Stream → Stream
unlock_write_buffers s = record s { flush_pending = false }

-- what a write to the stream below does, where that takes `n` bytes
abbrev pub write_out : ℕ → Stream → Stream
write_out n s = record s {
  write_buffer_locked = (consume (make s.write_buffer_locked npos) n).target;
  sent = s.sent ++ take n (contents s.write_buffer_locked);
}

-- The write answers `n` and `answer`.
abbrev pub flush_locked : ℕ → Ec → Stream × Ec → Stream × Ec
flush_locked n answer (s, ec) =
    if is_error ec then (s, ec) else (unlock_write_buffers (write_out n s), answer)

pub flush : ℕ → Ec → Ec → Stream → Stream × Ec
unfolding lock_write_buffers
flush n answer ec s = flush_locked n answer (lock_write_buffers ec s)

-- the first half of `async_flush`, with a code of its own
abbrev pub start_locked : Stream × Ec → Stream
start_locked (s, ec) = if is_error ec then s else record s {
  in_flight = some (record { rest = contents s.write_buffer_locked; written = 0 });
}

pub async_flush : Stream → Stream
unfolding lock_write_buffers
async_flush s = start_locked (lock_write_buffers no_error s)

-- The stream takes up to `n` bytes of the write in flight.
abbrev pub transfer_held : ℕ → Option Write → Stream → Stream
transfer_held n none s = s
transfer_held n (some w) s = record s {
  in_flight = some (record { rest = drop n w.rest; written = w.written + min n (length w.rest) });
  sent = s.sent ++ take n w.rest;
}

abbrev pub transfer : ℕ → Stream → Stream
transfer n s = transfer_held n s.in_flight s

-- The write ends, with an error or without; this is the second half.
abbrev pub finish_held : Option Write → Stream → Stream
finish_held none s = s
finish_held (some w) s = unlock_write_buffers (record s {
  in_flight = none;
  write_buffer_locked = (consume (make s.write_buffer_locked npos) w.written).target;
})

abbrev pub finish_flush : Stream → Stream
finish_flush s = finish_held s.in_flight s

-- what the client appends, and what of it the buffer takes
abbrev pub appended : Bytes → Stream → Outcome Buffer → Stream × Bytes
appended xs s (ok b) = (record s { write_buffer = b }, xs)
appended xs s (throw e) = (s, [])

-- calls of the client, and the progress and the end of a write in flight
pub data Call : Type 0 where
  appends : Bytes → Call
  flushes : ℕ → Ec → Ec → Call
  starts finishes : Call
  transfers : ℕ → Call

module _ (al : Allocator) where
  -- the new state, and the bytes that were taken from the client
  pub step : Call → Stream → Stream × Bytes
  unfolding flush async_flush
  step (appends xs) s = appended xs s (append al s.write_buffer xs)
  step (flushes n answer ec) s = ((flush n answer ec s).0, [])
  step starts s = (async_flush s, [])
  step (transfers n) s = (transfer n s, [])
  step finishes s = (finish_flush s, [])

  pub run : List Call → Stream → Stream × Bytes
  unfolding step
  run [] s = (s, [])
  run (c ∷ cs) s =
      let (s', taken) = step c s in let (last, more) = run cs s' in (last, taken ++ more)
