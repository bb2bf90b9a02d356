-- ===== src/LinearBuffer/Resize.antt =====
-- `resize`, `reserve` and copy assignment of `basic_linear_buffer`.
use asio_extensions.Prelude.{
  ℕ, min, ◌≤◌, ◌<◌, ◌≡◌, ◌⊎◌, inl, inr, refl, ◌∙◌, sym, ap, Bool-cases, none, ltb, arith, Bytes,
  length, take, write_at, length-write_at, take-write_at, take-take,
}
use asio_extensions.LinearBuffer.{
  Allocator, Buffer, size_mod, ok, throw, length_error, bad_alloc, contents, calculate_capacity,
  reserve, resize, assign,
}
use asio_extensions.LinearBuffer.Growth.{
  IsValid, length-contents, Grown, moved-Grown, NoMemory, reallocate_result, enlarge_result,
  calculate_capacity_bounds,
}

-- `resize` to `n` bytes: the first bytes stay, as many as both sizes have.
pub record Resized (b : Buffer) (n : ℕ) (c : Buffer) : Type 0 where
  pub valid : IsValid c
  pub size_is : c.size ≡ n
  pub front : take (min n b.size) (contents c) ≡ take (min n b.size) (contents b)
  pub max_kept : c.max_size ≡ b.max_size
  pub grows : b.capacity ≤ c.capacity

Grown-Resized : {b c : Buffer} (n : ℕ) → Grown b n c → Resized b n (record c { size = n })
Grown-Resized {b} {c} n g = record {
  valid = omega (arith, g.valid, g.room);
  size_is = refl;
  front =
      take-take (min n b.size) n c.store (omega arith)
      ∙ sym (take-take (min n b.size) c.size c.store (omega (arith, g.size_kept)))
      ∙ ap (take (min n b.size)) g.same;
  max_kept = g.max_kept;
  grows = g.grows;
}

pub prefix :
    {b c : Buffer} {n : ℕ} (k : ℕ)
    → Resized b n c
    → k ≤ n
    → k ≤ b.size
    → take k (contents c) ≡ take k (contents b)
prefix {b} {c} {n} k r h l =
    sym (take-take k (min n b.size) (contents c) (omega arith))
    ∙ ap (take k) r.front
    ∙ take-take k (min n b.size) (contents b) (omega arith)

-- Copy assignment leaves a valid buffer with the bytes of `other`, its own maximum, and no less
-- capacity.
pub record Assigned (b other c : Buffer) : Type 0 where
  pub valid : IsValid c
  pub bytes : contents c ≡ contents other
  pub max_kept : c.max_size ≡ b.max_size
  pub grows : b.capacity ≤ c.capacity

write-Assigned :
    {b other : Buffer} (store : Bytes) (cap : ℕ)
    → IsValid b
    → IsValid other
    → length store ≡ cap
    → other.size ≤ cap
    → b.capacity ≤ cap
    → cap < size_mod
    → Assigned b other
        (record b { store = write_at store 0 (contents other); capacity = cap; size = other.size })
write-Assigned {other = other} store cap v w len h l q = record {
  valid = omega (arith, length-write_at store 0 (contents other));
  bytes =
      take-write_at store 0 other.size (contents other) (omega (arith, length-contents w))
        (omega arith);
  max_kept = refl;
  grows = l;
}

module _ (al : Allocator) {b : Buffer} where
  -- `resize` of a valid buffer throws `length_error` above the maximum, and `bad_alloc` where a larger
  -- block is needed and there is none; else the buffer is valid, has `n` bytes, and keeps the old
  -- ones, as many as both sizes have.
  pub resize_result :
      (n : ℕ)
      → IsValid b
      → ((b.max_size < n) × (resize al b n ≡ throw length_error))
        ⊎ ((n ≤ b.max_size) × NoMemory al b n × (resize al b n ≡ throw bad_alloc))
        ⊎ ((c : Buffer) × (resize al b n ≡ ok c) × (n ≤ b.max_size) × Resized b n c)
  unfolding resize
  resize_result n v = elim (Bool-cases (ltb b.max_size n)) [
    | inl long ↦ inl (ground arith, rw long)
    | inr short ↦
        let fits : n ≤ b.max_size = ground arith in
        elim (enlarge_result al n v fits) [
          | inl (no_memory, e) ↦ inr (inl (fits, no_memory, rw (short, e)))
          | inr (c, e, g) ↦ inr (inr (_, rw (short, e), fits, Grown-Resized n g))
        ]
  ]

  -- `reserve` of a valid buffer throws `length_error` above the maximum, and `bad_alloc` where the
  -- allocator has no such block; else the buffer is valid, has room for `n` bytes, and the same bytes.
  pub reserve_result :
      (n : ℕ)
      → IsValid b
      → ((b.max_size < n) × (reserve al b n ≡ throw length_error))
        ⊎ ((b.capacity < n) × (al.allocate n ≡ none) × (reserve al b n ≡ throw bad_alloc))
        ⊎ ((c : Buffer) × (reserve al b n ≡ ok c) × (n ≤ b.max_size) × Grown b n c)
  unfolding reserve
  reserve_result n v = elim (Bool-cases (ltb b.max_size n)) [
    | inl long ↦ inl (ground arith, rw long)
    | inr short ↦ elim (Bool-cases (ltb b.capacity n)) [
      | inl more ↦ elim (reallocate_result al b n (λ block. write_at block 0 (contents b))) [
        | inl (q, e) ↦ inr (inl (ground arith, q, rw (short, more) e))
        | inr (block, len, e) ↦ inr (
            inr (
              _,
              rw (short, more) e,
              ground arith,
              moved-Grown n block v (ground arith) (ground arith) len,
            ))
      ]
      | inr enough ↦ inr (
          inr (
            b,
            rw (short, enough),
            ground arith,
            record {
              valid = v;
              same = refl;
              room = ground arith;
              size_kept = refl;
              max_kept = refl;
              grows = omega arith;
            },
          ))
    ]
  ]

  -- Copy assignment between valid buffers throws `length_error` where the other is longer than the
  -- maximum, and `bad_alloc` where a larger block is needed and there is none; else the buffer is
  -- valid, has the bytes of the other, its own maximum, and no less capacity.
  pub assign_result :
      {other : Buffer}
      → IsValid b
      → IsValid other
      → ((b.max_size < other.size) × (assign al b other ≡ throw length_error))
        ⊎ (NoMemory al b other.size × (assign al b other ≡ throw bad_alloc))
        ⊎ ((c : Buffer) × (assign al b other ≡ ok c)
            × (other.size ≤ b.max_size)
            × Assigned b other c)
  unfolding assign
  assign_result {other} v w = elim (Bool-cases (ltb b.max_size other.size)) [
    | inl long ↦ inl (ground arith, rw long)
    | inr short ↦ elim (Bool-cases (ltb b.capacity other.size)) [
      | inl more ↦
          let bounds = calculate_capacity_bounds b other.size (ground arith) in
          elim (reallocate_result al b (calculate_capacity b other.size) (λ block. block)) [
            | inl (q, e) ↦ inr (inl ((ground arith, q), rw (short, more, e)))
            | inr (block, len, e) ↦ inr (
                inr (
                  _,
                  rw (short, more, e),
                  ground arith,
                  write-Assigned block _ v w len (omega arith) (ground arith) (omega arith),
                ))
          ]
      | inr enough ↦ inr (
          inr (
            _,
            rw (short, enough),
            ground arith,
            write-Assigned b.store b.capacity v w v.block (ground arith) (omega arith)
                v.capacity_small,
          ))
    ]
  ]
