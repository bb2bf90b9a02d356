-- ===== src/DynamicBuffer/Queue.antt =====
-- `dynamic_linear_buffer` is a queue of bytes: `prepare`, a write and `commit` put bytes at its end,
-- and `consume` takes bytes from its front.
use asio_extensions.Prelude.{
  ℕ, ◌+◌, ◌-◌, ◌≤◌, ◌<◌, min, ◌≡◌, ◌≢◌, ◌⊎◌, inl, inr, refl, ◌∙◌, sym, ap, Bool-cases, arith, ◌==◌,
  length, take, drop, Bytes, ◌++◌, take-take, take-drop, length-take, length-write_at, drop-min,
  take-write_at_part, subst,
}
use asio_extensions.LinearBuffer.{
  Allocator, ok-injective, Buffer, ok, throw, length_error, bad_alloc, contents, add_size, sub_size,
  erase,
}
use asio_extensions.LinearBuffer.Growth.{IsValid, NoMemory, length-contents}
use asio_extensions.LinearBuffer.Resize.{Resized, prefix, resize_result}
use asio_extensions.LinearBuffer.Edit.{erase_front}
use asio_extensions.DynamicBuffer.{
  Dynamic, Region, npos, size, too_long, start_size, prepare, commit, consume, fill,
}

-- The buffer is valid and is no longer than both maxima; a size that was taken over counts bytes of it.
pub record IsQueue (d : Dynamic) : Type 0 where
  pub valid : IsValid d.target
  pub max_le : d.max_size ≤ d.target.max_size
  pub taken : (d.size_ ≡ npos) ⊎ ((d.size_ ≤ d.target.size) × (d.target.size ≤ d.max_size))

pub counted : {d : Dynamic} → IsQueue d → d.size_ ≢ npos → d.size_ ≤ d.target.size
counted q h = ground (arith, q)

pub within : {d : Dynamic} → IsQueue d → d.size_ ≢ npos → d.target.size ≤ d.max_size
within q h = ground (arith, q)

-- the bytes that were committed and not consumed
abbrev pub queue : Dynamic → Bytes
queue d = take (size d) (contents d.target)

-- `prepare` hands out exactly `n` bytes behind the queue, and leaves the queue alone.
pub record Prepared (d : Dynamic) (n : ℕ) (e : Dynamic) (r : Region) : Type 0 where
  pub valid : IsQueue e
  pub same : queue e ≡ queue d
  pub size_is : e.size_ ≡ start_size d
  pub region : (r.offset ≡ e.size_) × (r.len ≡ n) × (r.offset + r.len ≡ e.target.size)
  pub max_kept : e.max_size ≡ d.max_size

-- What `size()` gives once the maximum is not exceeded.
size_lem : (d : Dynamic) → start_size d ≤ d.max_size → size d ≡ start_size d
unfolding size
size_lem d h = ground arith

Prepared-of :
    {d : Dynamic} (siz n : ℕ) {b : Buffer}
    → IsQueue d
    → siz ≡ start_size d
    → siz + n ≤ d.max_size
    → Resized d.target (siz + n) b
    → Prepared d n
        (record d { target = b; size_ = siz })
        (record { offset = siz; len = sub_size b.size siz })
Prepared-of {d} siz n {b} q e h r =
    let after = record d { target = b; size_ = siz } in
    let now : start_size after ≡ siz = ground (arith, r.size_is, q.max_le, q.valid) in
    let new_size : size after ≡ siz = size_lem after (omega (arith, now)) ∙ now in
    let old_size : size d ≡ siz = size_lem d (omega arith) ∙ sym e in
    let old_le : siz ≤ d.target.size = ground (arith, q) in
    record {
      valid = record {
        valid = r.valid;
        max_le = omega (arith, r.max_kept, q.max_le);
        taken = inr (omega (arith, r.size_is), omega (arith, r.size_is));
      };
      same = rw (new_size, old_size) (prefix siz r (omega arith) old_le);
      size_is = e;
      region = omega (arith, r.size_is, r.valid);
      max_kept = refl;
    }

module _ (al : Allocator) {d : Dynamic} where
  -- `prepare` on a queue throws `length_error` just where the queue and `n` bytes go beyond the maximum,
  -- and `bad_alloc` where a larger block is needed and there is none; else it leaves the queue alone and
  -- hands out exactly the `n` bytes of the buffer behind it.
  pub prepare_result :
      (n : ℕ)
      → IsQueue d
      → ((d.max_size < start_size d + n) × (prepare al d n ≡ throw length_error))
        ⊎ (NoMemory al d.target (start_size d + n) × (prepare al d n ≡ throw bad_alloc))
        ⊎ ((e : Dynamic) × (r : Region) × (prepare al d n ≡ ok (e, r)) × Prepared d n e r)
  unfolding prepare
  prepare_result n q = elim (Bool-cases (too_long d (start_size d) n)) [
    | inl long ↦ inl (ground arith, rw long)
    | inr short ↦
        let fits : start_size d + n ≤ d.max_size = ground arith in
        let sum : add_size (start_size d) n ≡ start_size d + n = omega (arith, q.valid, q.max_le) in
        elim (resize_result al {b = d.target} (start_size d + n) q.valid) [
          | inl (long, e) ↦ absurd (omega (arith, q.max_le))
          | inr (inl (f, no_memory, e)) ↦ inr (inl (no_memory, rw (short, sum, e)))
          | inr (inr (b, e, f, r)) ↦
              inr (inr (_, _, rw (short, sum, e), Prepared-of (start_size d) n q refl fits r))
        ]
  ]

  -- `commit`, once `prepare` has run, never allocates and never throws: the queue is the bytes up to the
  -- new size, which is at most that of the buffer.
  pub commit_lem :
      (n : ℕ)
      → IsQueue d
      → d.size_ ≢ npos
      → (e : Dynamic) × (commit al d n ≡ ok e)
        × IsQueue e
        × (e.size_ ≡ d.size_ + min n (d.target.size - d.size_))
        × (queue e ≡ take e.size_ (contents d.target))
  unfolding commit size
  commit_lem n q ne =
      let siz = d.size_ + min n (d.target.size - d.size_) in
      let old = counted q ne in
      let top = within q ne in
      let sum : add_size d.size_ (min n (sub_size d.target.size d.size_)) ≡ siz =
        omega (arith, q.valid) in
      elim (resize_result al {b = d.target} siz q.valid) [
        | inl (long, e) ↦ absurd (omega (arith, q.max_le))
        | inr (inl (f, no_memory, e)) ↦ absurd (omega (arith, q.valid, no_memory))
        | inr (inr (b, e, f, r)) ↦
            let after = record d { target = b; size_ = siz } in
            let now : start_size after ≡ siz = ground (arith, r.size_is) in
            let new_size : size after ≡ siz = size_lem after (omega (arith, now)) ∙ now in
            (
              after,
              rw (sum, e),
              record {
                valid = r.valid;
                max_le = omega (arith, r.max_kept, q.max_le);
                taken = inr (omega (arith, r.size_is), omega (arith, r.size_is));
              },
              refl,
              rw new_size (prefix siz r (omega arith) (omega arith)),
            )
      ]

take-drop-min :
    (n s k : ℕ) (xs : Bytes)
    → k ≡ min n s
    → s ≤ length xs
    → take (s - k) (drop k xs) ≡ drop n (take s xs)
take-drop-min n s k xs e h =
    take-drop (s - k) k s xs (omega arith)
    ∙ drop-min n k (take s xs) (omega (arith, length-take s xs))

-- Both branches of `consume`: `k` bytes go from the front of the block.
consumed :
    {d : Dynamic} (n k size_ : ℕ)
    → IsQueue d
    → start_size d ≤ d.max_size
    → k ≡ min n (start_size d)
    → let after = record d { target = erase d.target 0 k; size_ = size_ } in
      start_size after ≡ start_size d - k
      → (size_ ≢ npos → d.size_ ≢ npos)
      → IsQueue after × (queue after ≡ drop n (queue d))
consumed {d} n k size_ q h e now same =
    let after = record d { target = erase d.target 0 k; size_ = size_ } in
    let all : start_size d ≤ d.target.size = ground (arith, q) in
    let (valid, bytes, size_is, max_is) = erase_front k q.valid (omega arith) in
    let old_size : size d ≡ start_size d = size_lem d h in
    let new_size : size after ≡ start_size d - k = size_lem after (omega (arith, now)) ∙ now in
    (
      record {
        valid = valid;
        max_le = omega (arith, q.max_le, max_is);
        taken = elim (Bool-cases (size_ == npos)) [
          | inl fresh ↦ inl (ground arith)
          | inr other ↦
              let ne : size_ ≢ npos = ground arith in
              inr (ground (arith, now, size_is), omega (arith, size_is, within q (same ne)))
        ];
      },
      rw (new_size, old_size, bytes)
          (take-drop-min n (start_size d) k (contents d.target) e
            (omega (arith, length-contents q.valid))),
    )

-- `consume` takes bytes from the front of a queue that is within its maximum, at most all of them.
pub consume_lem :
    {d : Dynamic} (n : ℕ)
    → IsQueue d
    → start_size d ≤ d.max_size
    → IsQueue (consume d n) × (queue (consume d n) ≡ drop n (queue d))
unfolding consume
consume_lem {d} n q h = elim (Bool-cases (d.size_ == npos)) [
  | inl fresh ↦
      let k = min (min d.target.size d.max_size) n in
      let (valid, bytes, size_is, max_is) = erase_front k q.valid (omega arith) in
      rw fresh (consumed n k d.size_ q h (ground arith) (ground arith) (λ ne. ne))
  | inr taken ↦
      let k = min n d.size_ in
      let left : sub_size d.size_ k ≡ d.size_ - k = ground (arith, q) in
      rw (taken, left)
        (consumed n k (d.size_ - k) q h (ground arith) (ground arith) (λ _. ground arith))
]

-- Bytes written into what `prepare` gave, and committed, stand at the end of the queue. Of those
-- written a client may commit only the first `k`.
put :
    (al : Allocator) {d e : Dynamic} {r : Region} (n k : ℕ) (xs : Bytes)
    → Prepared d n e r
    → start_size d ≢ npos
    → length xs ≤ n
    → k ≤ length xs
    → (f : Dynamic) × (commit al (fill e r xs) k ≡ ok f)
      × IsQueue f
      × (queue f ≡ queue d ++ take k xs)
put al {d} {e} {r} n k xs p ne short h =
    let filled = fill e r xs in
    let q = p.valid in
    let s = e.size_ in
    let len = length-write_at e.target.store r.offset xs in
    let some_size : s ≢ npos = rw p.size_is ne in
    let top : s + n ≤ e.target.size = omega (arith, p.region) in
    let in_block : s + length xs ≤ length e.target.store = omega (arith, q.valid) in
    let now : size e ≡ s = size_lem e (ground (arith, q)) ∙ ground (arith, some_size) in
    let all : min k (e.target.size - s) ≡ k = omega arith in
    let fq : IsQueue filled = record {
      valid = omega (arith, q.valid, len);
      max_le = q.max_le;
      taken = q.taken;
    } in
    let (f, runs, valid, size_is, bytes) = commit_lem al k fq some_size in
    (
      f,
      runs,
      valid,
      bytes
          ∙ rw (size_is, p.region.0, all)
              (take-take (s + k) e.target.size _ (omega arith)
                ∙ take-write_at_part e.target.store s k xs h in_block
                ∙ ap (λ (ys : Bytes). ys ++ take k xs)
                    (sym (take-take s e.target.size e.target.store (omega arith))
                      ∙ (rw now at p.same))),
    )

-- Where `prepare` has succeeded on a queue whose size is not `npos`, bytes written into what it gave
-- and committed stand at the end of the queue, behind the old ones: as many as are committed.
pub prepare-fill-commit :
    (al : Allocator) {d e : Dynamic} {r : Region} (n k : ℕ) (xs : Bytes)
    → IsQueue d
    → start_size d ≢ npos
    → prepare al d n ≡ ok (e, r)
    → length xs ≤ n
    → k ≤ length xs
    → (f : Dynamic) × (commit al (fill e r xs) k ≡ ok f)
      × IsQueue f
      × (queue f ≡ queue d ++ take k xs)
prepare-fill-commit al {d} n k xs q ne runs short h = elim (prepare_result al n q) [
  | inl (long, t) ↦ cc
  | inr (inl (m, t)) ↦ cc
  | inr (inr (e', r', t, p)) ↦
      put al n k xs
        (subst (λ (o : Dynamic × Region). Prepared d n o.0 o.1) (ok-injective (sym t ∙ runs)) p) ne
        short h
]
