-- ===== src/Buffered/Drain.antt =====
-- What flushes that write all they are given achieve.
use asio_extensions.Prelude.{
  ℕ, ◌≤◌, ◌≡◌, ◌≢◌, ◌⊎◌, inl, inr, refl, sym, ap, ◌∙◌, false, ◌&&◌, not, [], append-nil, ◌==◌,
  length, drop_all, Bool-cases, arith,
}
use asio_extensions.LinearBuffer.{Buffer, contents, move, move_assign_propagate}
use asio_extensions.LinearBuffer.Growth.{length-contents}
use asio_extensions.DynamicBuffer.{npos, make, consume}
use asio_extensions.Buffered.{Ec, no_error, Stream, swap, lock_write_buffers, flush}
use asio_extensions.Buffered.Order.{
  Fits, Ready, in_transit, whole, consume_front, no_bytes, flush_lem,
}

-- All of a buffer is consumed.
consume_all :
    (b : Buffer) (n : ℕ) → Fits b → b.size ≤ n → contents (consume (make b npos) n).target ≡ []
consume_all b n f h =
    let (fits, rest) = consume_front b n f in
    rest ∙ drop_all n (contents b) (omega (arith, length-contents f.valid))

-- An idle stream after a flush that wrote all.
record Flushed (s s' : Stream) : Type 0 where
  idle : s'.flush_pending ≡ false
  written : contents s'.write_buffer_locked ≡ []
  left :
      (contents s'.write_buffer ≡ [])
      ⊎ ((s'.write_buffer ≡ s.write_buffer) × (s.write_buffer_locked.size ≢ 0))

flush_all :
    (n : ℕ) (answer : Ec) (s : Stream)
    → Ready s
    → s.flush_pending ≡ false
    → s.write_buffer.size ≤ n
    → s.write_buffer_locked.size ≤ n
    → Flushed s (flush n answer no_error s).0
unfolding flush lock_write_buffers swap move move_assign_propagate
flush_all n answer s r idle w l =
    elim (Bool-cases (s.write_buffer_locked.size == 0 && not (s.write_buffer.size == 0))) [
      | inl swaps ↦
          rw (flush, idle, swaps)
            (record {
              idle = refl;
              written = consume_all s.write_buffer n r.free w;
              left = inl (no_bytes s.write_buffer_locked (ground arith));
            })
      | inr keeps ↦
          rw (flush, idle, keeps)
            (record {
              idle = refl;
              written = consume_all s.write_buffer_locked n r.locked l;
              left = elim (Bool-cases (s.write_buffer_locked.size == 0)) [
                | inl none_left ↦ inl (no_bytes s.write_buffer (ground arith))
                | inr some_left ↦ inr (refl, λ e. ground arith)
              ];
            })
    ]

-- no bytes, no size
no_size : (b : Buffer) → Fits b → contents b ≡ [] → b.size ≡ 0
no_size b f e = sym (length-contents f.valid) ∙ ap length e

-- Two flushes that write all that they are given send everything: the bytes that waited to be
-- written and then those in the write buffer, which are both empty afterwards.
pub flush_twice :
    (n : ℕ) (answer answer' : Ec) (s : Stream)
    → Ready s
    → s.flush_pending ≡ false
    → s.write_buffer.size ≤ n
    → s.write_buffer_locked.size ≤ n
    → let once = (flush n answer no_error s).0 in
      let twice = (flush n answer' no_error once).0 in
      (twice.sent ≡ whole s)
      × (contents twice.write_buffer_locked ≡ [])
      × (contents twice.write_buffer ≡ [])
flush_twice n answer answer' s r idle w l =
    let once = (flush n answer no_error s).0 in
    let twice = (flush n answer' no_error once).0 in
    let (ready, same) = flush_lem n answer no_error s r in
    let (ready', same') = flush_lem n answer' no_error once ready in
    let first = flush_all n answer s r idle w l in
    let locked_size = no_size once.write_buffer_locked ready.locked first.written in
    let free_size : once.write_buffer.size ≤ n = elim first.left [
      | inl e ↦ omega (arith, no_size once.write_buffer ready.free e)
      | inr (e, other) ↦ rw e w
    ] in
    let second = flush_all n answer' once ready first.idle free_size (omega (arith, locked_size)) in
    let free_empty : contents twice.write_buffer ≡ [] = elim second.left [
      | inl e ↦ e
      | inr (e, other) ↦ absurd (other locked_size)
    ] in
    let nothing_left = drop_all {A = ℕ} (in_transit twice.in_flight) [] (omega arith) in
    let all_sent : whole twice ≡ twice.sent =
      rw (second.written, free_empty, nothing_left) (append-nil twice.sent) in
    (sym all_sent ∙ same' ∙ same, second.written, free_empty)
