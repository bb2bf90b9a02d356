-- ===== src/LinearBuffer/Edit.antt =====
-- `erase` and `insert` of `basic_linear_buffer`.
use asio_extensions.Prelude.{
  ℕ, ◌+◌, ◌-◌, ◌≤◌, ◌<◌, ◌≡◌, ◌⊎◌, inl, inr, refl, ◌∙◌, sym, ap, ap₂, append_assoc,
  drop-append_right, Bool-cases, ltb, arith, length, take, drop, write_at, read_at, move_within,
  Bytes, ◌++◌, length-write_at, length-read_at, take-write_at, take-write_at_past,
  take-write_at_before, take-take, take-drop, length-take, drop_all, [],
}
use native.Mathlib.Nat.{sub_self}
use asio_extensions.LinearBuffer.{
  Allocator, Buffer, size_mod, too_long, ok, throw, length_error, bad_alloc, contents, add_size,
  sub_size, calculate_capacity, erase, erase_one, insert,
}
use asio_extensions.LinearBuffer.Growth.{
  IsValid, NoMemory, reallocate_result, calculate_capacity_bounds,
}

-- `erase(first, last)` of a valid buffer, with a range inside it, leaves a valid buffer whose bytes are
-- those before and behind the range.
pub erase_lem :
    {b : Buffer} (first last : ℕ)
    → IsValid b
    → first ≤ last
    → last ≤ b.size
    → IsValid (erase b first last)
      × (contents (erase b first last) ≡ take first (contents b) ++ drop last (contents b))
unfolding erase
erase_lem {b} first last v h l =
    let n : sub_size last first ≡ last - first = omega arith in
    let tail : sub_size (sub_size b.size first) (last - first) ≡ b.size - last = omega arith in
    let left : sub_size b.size (last - first) ≡ b.size - (last - first) = omega arith in
    rw (n, tail, left)
      (
        omega (arith, length-write_at b.store first (read_at b.store last (b.size - last))),
        take-write_at b.store first _ (read_at b.store last (b.size - last))
              (omega (arith, length-read_at b.store last (b.size - last))) (omega arith)
            ∙ ap₂ ◌++◌ (sym (take-take first b.size b.store (omega arith)))
                (take-drop (b.size - last) last b.size b.store (omega arith)),
      )

-- `erase(0, k)` drops `k` bytes.
pub erase_front :
    {b : Buffer} (k : ℕ)
    → IsValid b
    → k ≤ b.size
    → IsValid (erase b 0 k)
      × (contents (erase b 0 k) ≡ drop k (contents b))
      × ((erase b 0 k).size ≡ b.size - k)
      × ((erase b 0 k).max_size ≡ b.max_size)
erase_front {b} k v h =
    let (valid, bytes) = erase_lem 0 k v (omega arith) h in
    (valid, bytes, unfold erase in omega arith, unfold erase in refl)

-- `erase(pos)` of a position inside a valid buffer is `erase(pos, pos + 1)`.
pub erase_one_lem :
    {b : Buffer} (pos : ℕ) → IsValid b → pos < b.size → erase_one b pos ≡ erase b pos (pos + 1)
unfolding erase erase_one
erase_one_lem {b} pos v h = let n : sub_size (pos + 1) pos ≡ 1 = omega arith in rw n

-- `insert` of `xs` at `before`: the bytes behind the insertion are `tail`.
pub record Inserted (b : Buffer) (before : ℕ) (xs tail : Bytes) (c : Buffer) : Type 0 where
  pub valid : IsValid c
  pub bytes : contents c ≡ take before (contents b) ++ (xs ++ tail)
  pub size_is : c.size ≡ b.size + length xs
  pub max_kept : c.max_size ≡ b.max_size
  pub grows : b.capacity ≤ c.capacity

-- the bytes that stand behind the insertion where the block had room
abbrev pub shifted_tail : Buffer → ℕ → ℕ → Bytes
shifted_tail b before n =
    drop n (read_at b.store (before + n) (b.size - before) ++ read_at b.store b.size n)

-- The three copies into a new block, `n` being the length of `xs`.
three_copies :
    (block first xs last : Bytes) (i j k : ℕ)
    → i ≡ length first
    → j ≡ i + length xs
    → k ≡ j + length last
    → k ≤ length block
    → take k (write_at (write_at (write_at block 0 first) i xs) j last) ≡ first ++ (xs ++ last)
three_copies block first xs last i j k p q r h =
    let w1 = write_at block 0 first in
    let w2 = write_at w1 i xs in
    let l1 : length w1 ≡ length block = length-write_at block 0 first in
    let l2 : length w2 ≡ length w1 = length-write_at w1 i xs in
    take-write_at w2 j k last r (omega arith)
    ∙ ap (λ (ys : Bytes). ys ++ last)
        (take-write_at w1 i j xs q (omega arith)
          ∙ ap (λ (ys : Bytes). ys ++ xs)
              (take-write_at block 0 i first (omega arith) (omega arith)))
    ∙ append_assoc first xs last

-- The move and the copy within the old block.
move_and_copy :
    (b : Bytes) (before size n k : ℕ) (xs : Bytes)
    → n ≡ length xs
    → before ≤ size
    → k ≡ size + n
    → k ≤ length b
    → take k (write_at (move_within b before (before + n) (size - before)) before xs)
      ≡ take before b ++ (xs ++ drop n (read_at b (before + n) (size - before) ++ read_at b size n))
move_and_copy b before size n k xs e h r l =
    let moved = read_at b (before + n) (size - before) in
    let w = write_at b before moved in
    let lm : length moved ≡ size - before =
      length-read_at b (before + n) (size - before) (omega arith) in
    let lw : length w ≡ length b = length-write_at b before moved in
    take-write_at_past w before (before + n) k (size - before) xs (omega arith) (omega arith)
      (omega arith)
    ∙ ap₂ (λ (p t : Bytes). p ++ (xs ++ t))
        (take-write_at_before b before before size moved (omega arith) (omega arith) (omega arith))
        (take-drop (size - before) (before + n) k w (omega arith)
          ∙ ap (drop (before + n)) (take-write_at_past b before size k n moved (omega arith) r l)
          ∙ drop-append_right (before + n) n (take before b) _
              (omega (arith, length-take before b)))

-- what `insert` writes into a new block
abbrev three_writes : Buffer → ℕ → Bytes → Bytes → Bytes
three_writes b before xs block =
    write_at (write_at (write_at block 0 (read_at b.store 0 before)) before xs) (before + length xs)
      (read_at b.store before (sub_size b.size before))

-- The block that `insert` asks for, filled by its three copies.
grown-Inserted :
    {b : Buffer} (before cap : ℕ) (xs block : Bytes)
    → IsValid b
    → before ≤ b.size
    → b.size + length xs ≤ cap
    → b.capacity ≤ cap
    → cap < size_mod
    → length block ≡ cap
    → Inserted b before xs (drop before (contents b)) (record b {
      store = three_writes b before xs block;
      capacity = cap;
      size = b.size + length xs;
    })
grown-Inserted {b} before cap xs block v h room l q len =
    let first = read_at b.store 0 before in
    let last = read_at b.store before (sub_size b.size before) in
    let w1 = write_at block 0 first in
    let w2 = write_at w1 before xs in
    let lf : length first ≡ before = length-read_at b.store 0 before (omega arith) in
    let ll : length last ≡ b.size - before =
      omega (arith, length-read_at b.store before (sub_size b.size before) (omega arith)) in
    record {
      valid = omega (
        arith,
        length-write_at w2 (before + length xs) last,
        length-write_at w1 before xs,
        length-write_at block 0 first,
      );
      bytes =
          three_copies block first xs last before _ (b.size + length xs) (omega arith) refl
            (omega arith) (omega arith)
          ∙ ap₂ (λ (p t : Bytes). p ++ (xs ++ t)) (sym (take-take before b.size b.store h))
              (take-drop (sub_size b.size before) before b.size b.store (omega arith));
      size_is = refl;
      max_kept = refl;
      grows = l;
    }

shifted-Inserted :
    {b : Buffer} (before : ℕ) (xs : Bytes)
    → IsValid b
    → before ≤ b.size
    → b.size + length xs ≤ b.capacity
    → Inserted b before xs (shifted_tail b before (length xs)) (record b {
      store =
          write_at (move_within b.store before (before + length xs) (b.size - before)) before xs;
      size = b.size + length xs;
    })
shifted-Inserted {b} before xs v h room =
    let moved = read_at b.store (before + length xs) (b.size - before) in
    record {
      valid = omega (
        arith,
        length-write_at (write_at b.store before moved) before xs,
        length-write_at b.store before moved,
      );
      bytes =
          move_and_copy b.store before b.size (length xs) _ xs refl h refl (omega arith)
          ∙ ap (λ (p : Bytes). p ++ (xs ++ shifted_tail b before (length xs)))
              (sym (take-take before b.size b.store h));
      size_is = refl;
      max_kept = refl;
      grows = omega arith;
    }

-- At the end of the buffer nothing stands behind the insertion.
shifted_tail_end : {b : Buffer} (n : ℕ) → IsValid b → shifted_tail b b.size n ≡ []
shifted_tail_end {b} n v =
    rw sub_self
      (drop_all n (read_at b.store b.size n) (omega (arith, length-take n (drop b.size b.store))))

module _ (al : Allocator) {b : Buffer} where
  -- `insert` at a position of a valid buffer throws `length_error` where the bytes go beyond the
  -- maximum; in all other cases they are within it. It throws `bad_alloc` where a larger block is
  -- needed and there is none. Where a larger block is needed and given, the bytes are those before the
  -- position, the new ones, and those behind it. Where the block has room, those behind it are
  -- instead what `shifted_tail` reads from farther on.
  pub insert_result :
      (before : ℕ) (xs : Bytes)
      → IsValid b
      → before ≤ b.size
      → ((b.max_size < b.size + length xs) × (insert al b before xs ≡ throw length_error))
        ⊎ ((b.size + length xs ≤ b.max_size)
            × NoMemory al b (b.size + length xs)
            × (insert al b before xs ≡ throw bad_alloc))
        ⊎ ((c : Buffer) × (insert al b before xs ≡ ok c)
            × (b.size + length xs ≤ b.max_size)
            × (b.capacity < b.size + length xs)
            × Inserted b before xs (drop before (contents b)) c)
        ⊎ ((c : Buffer) × (insert al b before xs ≡ ok c)
            × (b.size + length xs ≤ b.max_size)
            × (b.size + length xs ≤ b.capacity)
            × Inserted b before xs (shifted_tail b before (length xs)) c)
  unfolding insert
  insert_result before xs v h = elim (Bool-cases (too_long b (length xs))) [
    | inl long ↦ inl (ground arith, rw long)
    | inr short ↦
        let fits : b.size + length xs ≤ b.max_size = ground arith in
        let sum : add_size b.size (length xs) ≡ b.size + length xs = omega arith in
        let rest : sub_size b.size before ≡ b.size - before = omega arith in
        let bounds = calculate_capacity_bounds b (b.size + length xs) fits in
        elim (Bool-cases (ltb b.capacity (b.size + length xs))) [
          | inl more ↦
              elim (reallocate_result al b (calculate_capacity b (b.size + length xs))
                (λ block. three_writes b before xs block)) [
                  | inl (q, e) ↦ inr (inl (fits, (ground arith, q), rw (short, sum, more, e)))
                  | inr (block, len, e) ↦ inr (
                      inr (
                        inl (
                          _,
                          rw (short, sum, more, e),
                          fits,
                          ground arith,
                          grown-Inserted before _ xs block v h (omega arith) (ground arith)
                              (omega arith) len,
                        )))
                ]
          | inr enough ↦ inr (
              inr (
                inr (
                  _,
                  rw (short, sum, enough, rest),
                  fits,
                  ground arith,
                  shifted-Inserted before xs v h (ground arith),
                )))
        ]
  ]
