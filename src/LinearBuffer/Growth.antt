-- ===== src/LinearBuffer/Growth.antt =====
-- The invariant of `basic_linear_buffer`, and the operations that may move to a larger block:
-- `append`, `reserve`, `resize` and copy assignment.
use asio_extensions.Prelude.{
  ℕ, ◌+◌, ◌≤◌, ◌<◌, ◌≡◌, ◌⊎◌, inl, inr, refl, ◌∙◌, ap, Bool-cases, none, Option-cases, ◌++◌, ltb,
  if◌then◌else◌, arith, Bytes, length, write_at, length-write_at, take-write_at, length-take,
}
use asio_extensions.LinearBuffer.{
  Allocator, Buffer, Outcome, ok, throw, length_error, bad_alloc, size_mod, contents, add_size,
  too_long, calculate_capacity, reallocate, append,
}

-- The block has the size that the object believes, and holds what the object counts.
pub record IsValid (b : Buffer) : Type 0 where
  pub block : length b.store ≡ b.capacity
  pub fits : b.size ≤ b.capacity
  pub capacity_small : b.capacity < size_mod
  pub max_small : b.max_size < size_mod

pub length-contents : {b : Buffer} → IsValid b → length (contents b) ≡ b.size
length-contents {b} v = omega (arith, length-take b.size b.store)

-- For `n` bytes that are within the maximum, the new capacity is enough for them and within the
-- maximum too.
pub calculate_capacity_bounds :
    (b : Buffer) (n : ℕ)
    → n ≤ b.max_size
    → (n ≤ calculate_capacity b n) × (calculate_capacity b n ≤ b.max_size)
unfolding calculate_capacity
calculate_capacity_bounds b n h = ground arith

-- What the steps that make room for `n` bytes leave as it was, and what they give.
pub record Grown (b : Buffer) (n : ℕ) (c : Buffer) : Type 0 where
  pub valid : IsValid c
  pub same : contents c ≡ contents b
  pub room : n ≤ c.capacity
  pub size_kept : c.size ≡ b.size
  pub max_kept : c.max_size ≡ b.max_size
  pub grows : b.capacity ≤ c.capacity

-- The old bytes at the front of a new block.
pub moved-Grown :
    {b : Buffer} (cap : ℕ) (block : Bytes)
    → IsValid b
    → b.capacity ≤ cap
    → cap < size_mod
    → length block ≡ cap
    → Grown b cap (record b { store = write_at block 0 (contents b); capacity = cap })
moved-Grown {b} cap block v h l len = record {
  valid = omega (arith, length-write_at block 0 (contents b));
  same = take-write_at block 0 b.size (contents b) (omega (arith, length-contents v)) (omega arith);
  room = omega arith;
  size_kept = refl;
  max_kept = refl;
  grows = omega arith;
}

module _ (al : Allocator) where
  -- `reallocate` runs `fn` on a block of `cap` bytes, or the allocator has failed.
  pub reallocate_result :
      (b : Buffer) (cap : ℕ) (fn : Bytes → Bytes)
      → ((al.allocate cap ≡ none) × (reallocate al b cap fn ≡ throw bad_alloc))
        ⊎ ((block : Bytes) × (length block ≡ cap)
            × (reallocate al b cap fn ≡ ok (record b { store = fn block; capacity = cap })))
  unfolding reallocate
  reallocate_result b cap fn = elim (Option-cases (al.allocate cap)) [
    | inl q ↦ inl (q, rw (q, reallocate))
    | inr (block, q) ↦ inr (block, al.length-allocate cap block q, rw (q, reallocate))
  ]

  -- The step with which `append` and `resize` make room for `n` bytes.
  abbrev enlarge : Buffer → ℕ → Outcome Buffer
  enlarge b n =
      if ltb b.capacity n
      then reallocate al b (calculate_capacity b n) (λ block. write_at block 0 (contents b))
      else ok b

  -- A larger block is needed, and there is none.
  abbrev pub NoMemory : Buffer → ℕ → Type 0
  NoMemory b n = (b.capacity < n) × (al.allocate (calculate_capacity b n) ≡ none)

  pub enlarge_result :
      {b : Buffer} (n : ℕ)
      → IsValid b
      → n ≤ b.max_size
      → (NoMemory b n × (enlarge b n ≡ throw bad_alloc))
        ⊎ ((c : Buffer) × (enlarge b n ≡ ok c) × Grown b n c)
  enlarge_result {b} n v h = elim (Bool-cases (ltb b.capacity n)) [
    | inl more ↦
        elim (reallocate_result b (calculate_capacity b n)
          (λ block. write_at block 0 (contents b))) [
            | inl (q, e) ↦ inl ((ground arith, q), rw more e)
            | inr (block, len, e) ↦
                let bounds = calculate_capacity_bounds b n h in
                let g =
                  moved-Grown (calculate_capacity b n) block v (ground arith) (ground arith) len in
                inr (
                  _,
                  rw more e,
                  record {
                    valid = g.valid;
                    same = g.same;
                    room = ground arith;
                    size_kept = refl;
                    max_kept = refl;
                    grows = g.grows;
                  },
                )
          ]
    | inr enough ↦ inr (
      b,
      rw enough,
      record {
        valid = v;
        same = refl;
        room = ground arith;
        size_kept = refl;
        max_kept = refl;
        grows = ground arith;
      },
    )
  ]

  -- `append` of `xs` has put them behind the old bytes.
  pub record Appended (b : Buffer) (xs : Bytes) (c : Buffer) : Type 0 where
    pub valid : IsValid c
    pub bytes : contents c ≡ contents b ++ xs
    pub max_kept : c.max_size ≡ b.max_size
    pub grows : b.capacity ≤ c.capacity

  write-Appended :
      {b c : Buffer} (xs : Bytes) (n : ℕ)
      → Grown b n c
      → n ≡ b.size + length xs
      → n < size_mod
      → Appended b xs (record c { store = write_at c.store b.size xs; size = n })
  write-Appended {b} {c} xs n g e l = record {
    valid = omega (arith, g.valid, length-write_at c.store b.size xs);
    bytes =
        take-write_at c.store b.size n xs e (omega (arith, g.valid, g.room))
        ∙ ap (λ (ys : Bytes). ys ++ xs) (rw g.size_kept at g.same);
    max_kept = g.max_kept;
    grows = g.grows;
  }

  -- `append` to a valid buffer throws `length_error` just where the bytes go beyond the maximum, and
  -- `bad_alloc` where a larger block is needed and there is none; else the buffer is valid and its
  -- bytes are the old ones with the new ones behind them.
  pub append_result :
      {b : Buffer} (xs : Bytes)
      → IsValid b
      → ((b.max_size < b.size + length xs) × (append al b xs ≡ throw length_error))
        ⊎ ((b.size + length xs ≤ b.max_size)
            × NoMemory b (b.size + length xs)
            × (append al b xs ≡ throw bad_alloc))
        ⊎ ((c : Buffer) × (append al b xs ≡ ok c)
            × (b.size + length xs ≤ b.max_size)
            × Appended b xs c)
  unfolding append
  append_result {b} xs v = elim (Bool-cases (too_long b (length xs))) [
    | inl long ↦ inl (ground arith, rw long)
    | inr short ↦
        let fits : b.size + length xs ≤ b.max_size = ground arith in
        let sum : add_size b.size (length xs) ≡ b.size + length xs = omega arith in
        elim (enlarge_result (b.size + length xs) v fits) [
          | inl (no_memory, e) ↦ inr (inl (fits, no_memory, rw (short, sum, e)))
          | inr (c, e, g) ↦
              inr (inr (_, rw (short, sum, e), fits, write-Appended xs _ g refl (omega arith)))
        ]
  ]
