-- ===== src/Tests/Streams.antt =====
-- Theorems on `buffered_stream` at a small stream.
use asio_extensions.Prelude.{◌≡◌, refl, true, false, none, some, List, [], ◌∷◌, ◌++◌, arith}
use asio_extensions.LinearBuffer.{contents}
use asio_extensions.Buffered.{
  no_error, Write, Stream, flush, async_flush, Call, appends, flushes, starts, transfers, finishes,
  run,
}
use asio_extensions.Buffered.Order.{landed, Ready, whole, run_order}
use asio_extensions.Buffered.Stuck.{async_flush_kept}
use asio_extensions.Buffered.Drain.{flush_twice}
use asio_extensions.Tests.Buffers.{zeroed, three, three-IsValid}

-- nothing waits, and three bytes were appended
abbrev filled : Stream
filled = record {
  flush_pending = false;
  write_buffer = three;
  write_buffer_locked = record { store = []; capacity = 0; size = 0; max_size = 8 };
  read_buffer = three;
  in_flight = none;
  sent = [];
}

filled-Ready : Ready filled
filled-Ready = record {
  free = record { valid = three-IsValid; within = omega arith };
  locked = record { valid = omega arith; within = omega arith };
  flying = landed;
}

-- a write of which the stream takes one byte, with an append in between
abbrev calls : List Call
calls = starts ∷ appends (7 ∷ []) ∷ transfers 1 ∷ finishes ∷ flushes 5 no_error no_error ∷ []

run_order_example :
    let (s', taken) = run zeroed calls filled in Ready s' × (whole s' ≡ whole filled ++ taken)
run_order_example = run_order zeroed calls filled filled-Ready

flush_twice_example :
    let once = (flush 5 no_error no_error filled).0 in
    let twice = (flush 5 no_error no_error once).0 in
    (twice.sent ≡ whole filled)
    × (contents twice.write_buffer_locked ≡ [])
    × (contents twice.write_buffer ≡ [])
flush_twice_example =
    flush_twice 5 no_error no_error filled filled-Ready refl (omega arith) (omega arith)

abbrev waiting : List Call
waiting = appends (7 ∷ []) ∷ transfers 1 ∷ flushes 5 no_error no_error ∷ transfers 1 ∷ []

async_flush_kept_example :
    let started = async_flush filled in
    let later = (run zeroed waiting started).0 in
    (later.flush_pending ≡ true)
    × (later.write_buffer_locked ≡ started.write_buffer_locked)
    × ((w : Write) × (later.in_flight ≡ some w)
        × (later.sent ++ w.rest ≡ contents started.write_buffer_locked))
async_flush_kept_example = async_flush_kept zeroed waiting filled refl refl
