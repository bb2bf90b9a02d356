-- ===== src/Buffered/Stuck.antt =====
-- What a flush that was started keeps others from doing.
use asio_extensions.Prelude.{
  ℕ, ◌≡◌, refl, sym, ap, ◌∙◌, Bool, true, false, ◌&&◌, ◌||◌, not, List, [], ◌∷◌, ◌++◌, append_assoc,
  append-nil, Option, none, some, Option-cases, ◌==◌, Bytes, take, drop, take-append-drop,
  Bool-cases, inl, inr, arith,
}
use asio_extensions.LinearBuffer.{Allocator, Outcome, ok, throw, Buffer, contents, append}
use asio_extensions.Buffered.{
  Ec, no_error, is_error, Write, Stream, lock_write_buffers, flush_locked, flush, start_locked,
  async_flush, transfer, finish_flush, appended, Call, appends, flushes, starts, transfers,
  finishes, step, run,
}
use asio_extensions.Buffered.Order.{busy_lock}

-- a call that does not end a write in flight
abbrev pub waits : Call → Bool
waits (appends xs) = true
waits (flushes n answer ec) = true
waits starts = true
waits (transfers n) = true
waits finishes = false

abbrev pub all_wait : List Call → Bool
all_wait [] = true
all_wait (c ∷ cs) = waits c && all_wait cs

abbrev pub is_flying : Option Write → Bool
is_flying none = false
is_flying (some w) = true

-- what went to the stream below, and what a write in flight still has for it
abbrev pub outgoing : Stream → Bytes
outgoing s = s.sent ++ elim s.in_flight [ none ↦ [] | some w ↦ w.rest ]

-- What stays the same while a flush is pending.
record Kept (s s' : Stream) : Type 0 where
  pub pending : s'.flush_pending ≡ true
  pub flying : is_flying s'.in_flight ≡ is_flying s.in_flight
  pub locked : s'.write_buffer_locked ≡ s.write_buffer_locked
  pub out : outgoing s' ≡ outgoing s

transfer-Kept : (n : ℕ) (s : Stream) → s.flush_pending ≡ true → Kept s (transfer n s)
transfer-Kept n s h = elim (Option-cases s.in_flight) [
  | inl gone ↦
      rw (transfer, gone) (record { pending = h; flying = refl; locked = refl; out = refl })
  | inr (w, has) ↦
      rw (transfer, has)
        (record {
          pending = h;
          flying = refl;
          locked = refl;
          out =
              append_assoc s.sent (take n w.rest) (drop n w.rest)
              ∙ ap (λ t. s.sent ++ t) (take-append-drop n w.rest);
        })
]

flying_write :
    (s : Stream) (out : Bytes)
    → is_flying s.in_flight ≡ true
    → outgoing s ≡ out
    → (w : Write) × (s.in_flight ≡ some w) × (s.sent ++ w.rest ≡ out)
flying_write s out h e = elim (Option-cases s.in_flight) [
  | inl gone ↦ let h' = rw gone at h in ground arith
  | inr (w, has) ↦ (w, has, rw has at e)
]

landed_sent :
    (s : Stream) (out : Bytes) → is_flying s.in_flight ≡ false → outgoing s ≡ out → s.sent ≡ out
landed_sent s out h e = elim (Option-cases s.in_flight) [
  | inl gone ↦ let e' = rw gone at e in sym (append-nil s.sent) ∙ e'
  | inr (w, has) ↦ let h' = rw has at h in ground arith
]

module _ (al : Allocator) where
  append-Kept :
      (xs : Bytes) (s : Stream) (o : Outcome Buffer)
      → s.flush_pending ≡ true
      → Kept s (appended xs s o).0
  append-Kept xs s (ok b) h = record { pending = h; flying = refl; locked = refl; out = refl }
  append-Kept xs s (throw e) h = record { pending = h; flying = refl; locked = refl; out = refl }

  wait-Kept :
      (c : Call) (s : Stream)
      → waits c || not (is_flying s.in_flight) ≡ true
      → s.flush_pending ≡ true
      → Kept s (step al c s).0
  unfolding step flush async_flush
  wait-Kept (appends xs) s w h = append-Kept xs s (append al s.write_buffer xs) h
  wait-Kept (flushes n answer ec) s w h =
      rw (busy_lock ec s h) (record { pending = h; flying = refl; locked = refl; out = refl })
  wait-Kept starts s w h =
      rw (busy_lock no_error s h) (record { pending = h; flying = refl; locked = refl; out = refl })
  wait-Kept (transfers n) s w h = transfer-Kept n s h
  wait-Kept finishes s w h = elim (Option-cases s.in_flight) [
    | inl gone ↦
        rw (finish_flush, gone) (record { pending = h; flying = refl; locked = refl; out = refl })
    | inr (f, has) ↦ let w' = rw has at w in ground arith
  ]

  run-Kept :
      (cs : List Call) (s : Stream)
      → all_wait cs || not (is_flying s.in_flight) ≡ true
      → s.flush_pending ≡ true
      → Kept s (run al cs s).0
  unfolding run
  run-Kept [] s w h = record { pending = h; flying = refl; locked = refl; out = refl }
  run-Kept (c ∷ cs) s w h =
      let one = wait-Kept c s (ground arith) h in
      let rest = run-Kept cs (step al c s).0 (rw (one.flying) (ground arith)) one.pending in
      record {
        pending = rest.pending;
        flying = rest.flying ∙ one.flying;
        locked = rest.locked ∙ one.locked;
        out = rest.out ∙ one.out;
      }

  idle_lock :
      (ec : Ec) (s : Stream)
      → s.flush_pending ≡ false
      → let (s', code) = lock_write_buffers ec s in
        (s'.flush_pending ≡ true) × (s'.in_flight ≡ s.in_flight) × (s'.sent ≡ s.sent) × (code ≡ ec)
  unfolding lock_write_buffers
  idle_lock ec s h =
      elim (Bool-cases (s.write_buffer_locked.size == 0 && not (s.write_buffer.size == 0))) [
        | inl swaps ↦ rw (h, swaps) (refl, refl, refl, refl)
        | inr keeps ↦ rw (h, keeps) (refl, refl, refl, refl)
      ]

  -- While an asynchronous flush that was started on an idle stream is in flight, the buffer that it
  -- writes from stays the same, bytes and block, whatever the client appends, whichever flushes it
  -- tries and whatever pieces the stream takes; and what the stream took since, with what it has still
  -- to take, is that buffer: no byte of another flush gets in between.
  pub async_flush_kept :
      (cs : List Call) (s : Stream)
      → s.flush_pending ≡ false
      → all_wait cs ≡ true
      → let started = async_flush s in
        let later = (run al cs started).0 in
        (later.flush_pending ≡ true)
        × (later.write_buffer_locked ≡ started.write_buffer_locked)
        × ((w : Write) × (later.in_flight ≡ some w)
            × (later.sent ++ w.rest ≡ s.sent ++ contents started.write_buffer_locked))
  unfolding async_flush
  async_flush_kept cs s idle w =
      let (pending, flying, sent, code) = idle_lock no_error s idle in
      let fine : is_error (lock_write_buffers no_error s).1 ≡ false = rw code refl in
      rw (start_locked, fine)
        (let s' = (lock_write_buffers no_error s).0 in
          let started : Stream = record s' {
            in_flight = some (record { rest = contents s'.write_buffer_locked; written = 0 });
          } in
          let k = run-Kept cs started (ground arith) pending in
          let out = k.out ∙ ap (λ t. t ++ contents s'.write_buffer_locked) sent in
          (k.pending, k.locked, flying_write (run al cs started).0 _ k.flying out))

  -- A flush that is given a code with an error in it writes nothing, and leaves the stream so that no
  -- byte is written any more, whatever calls follow.
  pub flush_stuck :
      (n : ℕ) (answer ec : Ec) (cs : List Call) (s : Stream)
      → s.flush_pending ≡ false
      → s.in_flight ≡ none
      → is_error ec ≡ true
      → let last = (run al cs (flush n answer ec s).0).0 in
        (last.flush_pending ≡ true) × (last.sent ≡ s.sent)
  unfolding flush
  flush_stuck n answer ec cs s idle gone wrong =
      let (pending, flying, sent, code) = idle_lock ec s idle in
      let stale : is_error (lock_write_buffers ec s).1 ≡ true = rw code wrong in
      let s' = (lock_write_buffers ec s).0 in
      let gone' : s'.in_flight ≡ none = flying ∙ gone in
      rw (flush_locked, stale)
        (let k = run-Kept cs s' (rw gone' (ground arith)) pending in
          (
            k.pending,
            landed_sent (run al cs s').0 s'.sent (rw gone' at k.flying)
                  (k.out ∙ rw gone' (append-nil s'.sent))
                ∙ sent,
          ))
