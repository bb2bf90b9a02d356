-- ===== src/Buffered/Order.antt =====
-- The order in which bytes reach the stream below.
use asio_extensions.Prelude.{
  ℕ, ◌+◌, ◌≤◌, min, ◌≡◌, inl, inr, refl, sym, ap, ◌∙◌, ==_iff, Bool, true, false, ◌&&◌, not, List,
  [], ◌∷◌, ◌++◌, append_assoc, append-nil, Option, none, some, Option-cases, ◌==◌, Bytes, take,
  drop, length, take-append-drop, length-append, drop-drop, drop-min, Bool-cases, arith,
}
use asio_extensions.LinearBuffer.{Allocator, Buffer, contents, move, move_assign_propagate, append}
use asio_extensions.LinearBuffer.Growth.{IsValid, append_result, length-contents}
use asio_extensions.LinearBuffer.Edit.{erase_front}
use asio_extensions.DynamicBuffer.{npos, make, consume}
use asio_extensions.Buffered.{
  Ec, no_error, already_started, is_error, Write, Stream, swap, lock_write_buffers, write_out,
  flush_locked, flush, start_locked, async_flush, transfer, finish_flush, appended, Call, appends,
  flushes, starts, transfers, finishes, step, run,
}

-- a valid buffer within its maximum
pub record Fits (b : Buffer) : Type 0 where
  pub valid : IsValid b
  pub within : b.size ≤ b.max_size

pub consume_front :
    (b : Buffer) (n : ℕ)
    → Fits b
    → let c = (consume (make b npos) n).target in Fits c × (contents c ≡ drop n (contents b))
unfolding consume
consume_front b n f =
    let k = min (min b.size (min b.max_size npos)) n in
    let v = f.valid in
    let (valid, bytes, size_is, max_is) = erase_front k f.valid (omega (arith, f.within)) in
    let short : k ≡ min n (length (contents b)) =
      omega (arith, length-contents f.valid, f.within, v.max_small) in
    let self : (npos == npos) ≡ true = refl in
    (
      record { valid = valid; within = omega (arith, f.within, size_is, max_is) },
      bytes ∙ drop-min n k (contents b) short,
    )

-- A write in flight has a flush pending, and the bytes that are left of it are in the locked buffer.
pub data Flying (pending : Bool) (locked : Bytes) : Option Write → Type 0 where
  landed : Flying pending locked none
  flies :
      (w : Write) → pending ≡ true → w.rest ≡ drop w.written locked → Flying pending locked (some w)

flies_lem :
    {pending : Bool} {locked : Bytes} {w : Write}
    → Flying pending locked (some w)
    → (pending ≡ true) × (w.rest ≡ drop w.written locked)
flies_lem (flies w p e) = (p, e)

pub record Ready (s : Stream) : Type 0 where
  pub free : Fits s.write_buffer
  pub locked : Fits s.write_buffer_locked
  pub flying : Flying s.flush_pending (contents s.write_buffer_locked) s.in_flight

-- how many bytes of the locked buffer were sent already
abbrev pub in_transit : Option Write → ℕ
in_transit none = 0
in_transit (some w) = w.written

-- what went to the stream below, then what waits to be written, then what the client appends to
abbrev pub whole : Stream → Bytes
whole s =
    s.sent
    ++ (drop (in_transit s.in_flight) (contents s.write_buffer_locked) ++ contents s.write_buffer)

pub no_bytes : (b : Buffer) → (b.size == 0) ≡ true → contents b ≡ []
no_bytes b h = let e = (==_iff b.size 0).0 h in rw e refl

-- An idle stream has no write in flight.
idle_none : (s : Stream) → Ready s → s.flush_pending ≡ false → s.in_flight ≡ none
idle_none s r idle = elim (Option-cases s.in_flight) [
  | inl none_left ↦ none_left
  | inr (w, has) ↦
      let f = rw has at r.flying in
      let (pending, same) = flies_lem f in absurd (ground (arith, pending, idle))
]

pub busy_lock :
    (ec : Ec) (s : Stream) → s.flush_pending ≡ true → lock_write_buffers ec s ≡ (s, already_started)
unfolding lock_write_buffers
busy_lock ec s h = simp h refl

lock_lem :
    (ec : Ec) (s : Stream)
    → Ready s
    → s.flush_pending ≡ false
    → let s' = (lock_write_buffers ec s).0 in
      Ready s' × (whole s' ≡ whole s) × (s'.in_flight ≡ none) × (s'.flush_pending ≡ true)
unfolding lock_write_buffers swap move move_assign_propagate
lock_lem ec s r idle =
    let gone = idle_none s r idle in
    elim (Bool-cases (s.write_buffer_locked.size == 0 && not (s.write_buffer.size == 0))) [
      | inl swaps ↦
          let none_left = no_bytes s.write_buffer_locked (ground arith) in
          rw (idle, swaps)
            (
              record { free = r.locked; locked = r.free; flying = rw gone landed },
              rw (gone, none_left) (ap (λ t. s.sent ++ t) (append-nil (contents s.write_buffer))),
              gone,
              refl,
            )
      | inr keeps ↦
          rw (idle, keeps)
            (record { free = r.free; locked = r.locked; flying = rw gone landed }, refl, gone, refl)
    ]

-- A piece of what waits is sent.
sent_part : (n : ℕ) (sent l w : Bytes) → (sent ++ take n l) ++ (drop n l ++ w) ≡ sent ++ (l ++ w)
sent_part n sent l w = simp (append_assoc) (
    ap (λ t. sent ++ t)
      (sym (append_assoc (take n l) (drop n l) w) ∙ ap (λ t. t ++ w) (take-append-drop n l)))

write_lem :
    (n : ℕ) (s : Stream)
    → Ready s
    → s.in_flight ≡ none
    → Ready (write_out n s) × (whole (write_out n s) ≡ whole s)
write_lem n s r gone =
    let (fits, rest) = consume_front s.write_buffer_locked n r.locked in
    (
      record { free = r.free; locked = fits; flying = rw gone landed },
      rw (gone, rest)
          (sent_part n s.sent (contents s.write_buffer_locked) (contents s.write_buffer)),
    )

pub flush_lem :
    (n : ℕ) (answer ec : Ec) (s : Stream)
    → Ready s
    → let s' = (flush n answer ec s).0 in Ready s' × (whole s' ≡ whole s)
unfolding flush
flush_lem n answer ec s r = elim (Bool-cases s.flush_pending) [
  | inl busy ↦ rw (busy_lock ec s busy) (r, refl)
  | inr idle ↦
      let (ready, same, gone, pending) = lock_lem ec s r idle in
      let s' = (lock_write_buffers ec s).0 in
      let (ready', same') = write_lem n s' ready gone in
      elim (Bool-cases (is_error (lock_write_buffers ec s).1)) [
        | inl wrong ↦ rw (flush_locked, wrong) (ready, same)
        | inr fine ↦
            rw (flush_locked, fine)
              (
                record { free = ready'.free; locked = ready'.locked; flying = rw gone landed },
                same' ∙ same,
              )
      ]
]

start_lem : (s : Stream) → Ready s → Ready (async_flush s) × (whole (async_flush s) ≡ whole s)
unfolding async_flush
start_lem s r = elim (Bool-cases s.flush_pending) [
  | inl busy ↦ rw (busy_lock no_error s busy) (r, refl)
  | inr idle ↦
      let (ready, same, gone, pending) = lock_lem no_error s r idle in
      let s' = (lock_write_buffers no_error s).0 in
      elim (Bool-cases (is_error (lock_write_buffers no_error s).1)) [
        | inl wrong ↦ rw (start_locked, wrong) (ready, same)
        | inr fine ↦
            rw (start_locked, fine)
              (
                record {
                  free = ready.free;
                  locked = ready.locked;
                  flying =
                      flies (record { rest = contents s'.write_buffer_locked; written = 0 }) pending
                        refl;
                },
                rw gone at same,
              )
      ]
]

-- What is left of a write after a piece more.
piece_lem :
    (n k : ℕ) (l rest : Bytes) → rest ≡ drop k l → drop n rest ≡ drop (k + min n (length rest)) l
piece_lem n k l rest e =
    sym (drop-min n (min n (length rest)) rest refl)
    ∙ ap (drop (min n (length rest))) e
    ∙ drop-drop (min n (length rest)) k _ l refl

transfer_lem :
    (n : ℕ) (s : Stream) → Ready s → Ready (transfer n s) × (whole (transfer n s) ≡ whole s)
transfer_lem n s r = elim (Option-cases s.in_flight) [
  | inl gone ↦
      rw (transfer, gone) (record { free = r.free; locked = r.locked; flying = landed }, refl)
  | inr (w, has) ↦
      let f = rw has at r.flying in
      let (pending, same) = flies_lem f in
      let piece = piece_lem n w.written (contents s.write_buffer_locked) w.rest same in
      rw (transfer, has)
        (
          record { free = r.free; locked = r.locked; flying = flies _ pending piece },
          rw (sym piece, sym same) (sent_part n s.sent w.rest (contents s.write_buffer)),
        )
]

finish_lem : (s : Stream) → Ready s → Ready (finish_flush s) × (whole (finish_flush s) ≡ whole s)
finish_lem s r = elim (Option-cases s.in_flight) [
  | inl gone ↦
      rw (finish_flush, gone) (record { free = r.free; locked = r.locked; flying = landed }, refl)
  | inr (w, has) ↦
      let (fits, rest) = consume_front s.write_buffer_locked w.written r.locked in
      rw (finish_flush, has)
        (record { free = r.free; locked = fits; flying = landed }, rw rest refl)
]

module _ (al : Allocator) where
  append_lem :
      (xs : Bytes) (s : Stream)
      → Ready s
      → let (s', taken) = appended xs s (append al s.write_buffer xs) in
        Ready s' × (whole s' ≡ whole s ++ taken)
  append_lem xs s r = elim (append_result al xs (Fits.valid r.free)) [
    | inl (long, e) ↦ rw e (r, sym (append-nil (whole s)))
    | inr (inl (fits, no_memory, e)) ↦ rw e (r, sym (append-nil (whole s)))
    | inr (inr (b, e, fits, a)) ↦
        let size_is : b.size ≡ s.write_buffer.size + length xs = omega (
          arith,
          length-contents a.valid,
          length-contents (Fits.valid r.free),
          ap length a.bytes,
          length-append (contents s.write_buffer) xs,
        ) in
        rw e (
          record {
            free = record { valid = a.valid; within = omega (arith, size_is, a.max_kept) };
            locked = r.locked;
            flying = r.flying;
          },
          rw (a.bytes) (simp append_assoc refl),
        )
  ]

  step_lem :
      (c : Call) (s : Stream)
      → Ready s
      → let (s', taken) = step al c s in Ready s' × (whole s' ≡ whole s ++ taken)
  unfolding step
  step_lem (appends xs) s r = append_lem xs s r
  step_lem (flushes n answer ec) s r =
      let (ready, same) = flush_lem n answer ec s r in (ready, same ∙ sym (append-nil (whole s)))
  step_lem starts s r =
      let (ready, same) = start_lem s r in (ready, same ∙ sym (append-nil (whole s)))
  step_lem (transfers n) s r =
      let (ready, same) = transfer_lem n s r in (ready, same ∙ sym (append-nil (whole s)))
  step_lem finishes s r =
      let (ready, same) = finish_lem s r in (ready, same ∙ sym (append-nil (whole s)))

  -- However appends, flushes, the halves of asynchronous flushes and the pieces of their writes
  -- follow each other, and whatever the stream below takes of each write, the bytes that it took,
  -- those that wait and those in the write buffer are together the bytes there were before and all
  -- that were appended, in their order: none is lost, doubled or overtaken. The buffers stay valid
  -- and within their maxima, and a write in flight has a flush pending and the bytes of its buffer
  -- left.
  pub run_order :
      (cs : List Call) (s : Stream)
      → Ready s
      → let (s', taken) = run al cs s in Ready s' × (whole s' ≡ whole s ++ taken)
  unfolding run
  run_order [] s r = (r, sym (append-nil (whole s)))
  run_order (c ∷ cs) s r =
      let (ready, one) = step_lem c s r in
      let (ready', rest) = run_order cs (step al c s).0 ready in
      (
        ready',
        rest
            ∙ ap (λ t. t ++ (run al cs (step al c s).0).1) one
            ∙ append_assoc (whole s) (step al c s).1 _,
      )
