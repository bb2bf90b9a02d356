-- ===== src/LinearBuffer/Move.antt =====
-- Moves between two buffers.
use asio_extensions.Prelude.{
  ℕ, zero, suc, ◌≤◌, ◌≡◌, ◌⊎◌, inl, inr, refl, true, false, none, some, Option-cases, [], arith,
  length, write_at, take-write_at, length-write_at, length-take, min, ◌<◌,
}
use asio_extensions.LinearBuffer.{
  Allocator, Buffer, ok, throw, bad_alloc, contents, move, move_assign_propagate, move_assign_keep,
  copy, with_size, size_mod,
}
use asio_extensions.LinearBuffer.Growth.{IsValid, length-contents}

-- Where the allocator stays and the two allocators are equal, `move_assign` has no result however
-- often it calls itself.
pub move_assign_keep_equal :
    (al : Allocator) (fuel : ℕ) (b other : Buffer) → move_assign_keep al fuel true b other ≡ none
unfolding move_assign_keep
move_assign_keep_equal al zero b other = refl
move_assign_keep_equal al (suc fuel) b other = move_assign_keep_equal al fuel b other

-- Where the allocator stays and the two differ, one call throws `bad_alloc` if the allocator fails,
-- and else leaves a valid buffer with the bytes of the other and its own maximum.
pub move_assign_keep_differ :
    (al : Allocator) (fuel : ℕ) {b other : Buffer}
    → IsValid b
    → IsValid other
    → ((al.allocate other.capacity ≡ none)
        × (move_assign_keep al (suc fuel) false b other ≡ some (throw bad_alloc)))
      ⊎ ((c : Buffer) × (move_assign_keep al (suc fuel) false b other ≡ some (ok (c, other)))
          × IsValid c
          × (contents c ≡ contents other)
          × (c.max_size ≡ b.max_size))
unfolding move_assign_keep
move_assign_keep_differ al fuel {b} {other} v w = elim (Option-cases (al.allocate other.capacity)) [
  | inl q ↦ inl (q, ground arith)
  | inr (block, q) ↦
      let len = al.length-allocate other.capacity block q in
      inr (
        record b {
          store = write_at block 0 (contents other);
          capacity = other.capacity;
          size = other.size;
        },
        ground arith,
        omega (arith, length-write_at block 0 (contents other)),
        take-write_at block 0 other.size (contents other) (omega (arith, length-contents w))
            (omega arith),
        refl,
      )
]

-- Moving from a valid buffer hands its bytes over and leaves a valid empty buffer behind; the move
-- assignment that takes the allocator along does the same.
pub move-IsValid :
    {other : Buffer} (b : Buffer)
    → IsValid other
    → (contents (move other).0 ≡ contents other)
      × IsValid (move other).0
      × IsValid (move other).1
      × (contents (move other).1 ≡ [])
      × (move_assign_propagate b other ≡ move other)
unfolding move move_assign_propagate
move-IsValid b v = (refl, v, omega arith, refl, refl)

-- Copying a valid buffer throws `bad_alloc` where the allocator fails, and else gives a valid buffer
-- with the same bytes in a block of just this size.
pub copy_result :
    (al : Allocator) {other : Buffer}
    → IsValid other
    → ((al.allocate other.size ≡ none) × (copy al other ≡ throw bad_alloc))
      ⊎ ((c : Buffer) × (copy al other ≡ ok c)
          × IsValid c
          × (contents c ≡ contents other)
          × (c.capacity ≡ other.size))
unfolding copy
copy_result al {other} v = elim (Option-cases (al.allocate other.size)) [
  | inl q ↦ inl (q, ground arith)
  | inr (block, q) ↦
      let len = al.length-allocate other.size block q in
      inr (
        record {
          store = write_at block 0 (contents other);
          capacity = other.size;
          size = other.size;
          max_size = other.max_size;
        },
        ground arith,
        omega (arith, v, length-write_at block 0 (contents other)),
        take-write_at block 0 other.size (contents other) (omega (arith, length-contents v))
            (omega arith),
        refl,
      )
]

-- The constructor from a size, at most the allocator's maximum and that below 2^64, throws `bad_alloc`
-- where the allocator fails, and else gives a valid buffer of so many bytes.
pub with_size_result :
    (al : Allocator) (initial maximum : ℕ)
    → al.max_size < size_mod
    → initial ≤ al.max_size
    → ((al.allocate initial ≡ none) × (with_size al initial maximum ≡ throw bad_alloc))
      ⊎ ((c : Buffer) × (with_size al initial maximum ≡ ok c)
          × IsValid c
          × (length (contents c) ≡ initial))
unfolding with_size
with_size_result al initial maximum small h = elim (Option-cases (al.allocate initial)) [
  | inl q ↦ inl (q, ground arith)
  | inr (block, q) ↦
      let len = al.length-allocate initial block q in
      inr (
        record {
          store = block;
          capacity = initial;
          size = initial;
          max_size = min al.max_size maximum;
        },
        ground arith,
        omega (arith, len),
        omega (arith, len, length-take initial block),
      )
]
