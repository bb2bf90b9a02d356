-- ===== src/Tests/Buffers.antt =====
-- Theorems on `basic_linear_buffer` at a buffer of three bytes in a block of four.
use asio_extensions.Prelude.{
  ◌≤◌, ◌<◌, ◌≡◌, ◌⊎◌, refl, subst, false, [], ◌∷◌, none, some, some-injective, Bytes, length,
  replicate, length-replicate, arith,
}
use asio_extensions.LinearBuffer.{
  Allocator, Buffer, ok, throw, length_error, bad_alloc, contents, calculate_capacity, append,
  insert, erase, reserve, resize, assign, copy, with_size, move, move_assign_propagate,
  move_assign_keep,
}
use asio_extensions.LinearBuffer.Growth.{
  IsValid, NoMemory, Grown, Appended, append_result, calculate_capacity_bounds,
}
use asio_extensions.LinearBuffer.Resize.{
  Resized, Assigned, resize_result, reserve_result, assign_result,
}
use asio_extensions.LinearBuffer.Edit.{Inserted, shifted_tail, erase_lem, insert_result}
use asio_extensions.LinearBuffer.Move.{
  move_assign_keep_differ, move-IsValid, copy_result, with_size_result,
}

-- an allocator of zeroed blocks
abbrev pub zeroed : Allocator
zeroed = record {
  allocate = λ n. some (replicate n 0);
  max_size = 1000;
  length-allocate =
      λ n block e. subst (λ (b : Bytes). length b ≡ n) (some-injective e) (length-replicate n 0);
}

abbrev pub three : Buffer
three = record { store = 1 ∷ 2 ∷ 3 ∷ 9 ∷ []; capacity = 4; size = 3; max_size = 8 }

pub three-IsValid : IsValid three
three-IsValid = record {
  block = refl;
  fits = omega arith;
  capacity_small = omega arith;
  max_small = omega arith;
}

append_result_example :
    ((8 < 5) × (append zeroed three (4 ∷ 5 ∷ []) ≡ throw length_error))
    ⊎ ((5 ≤ 8) × NoMemory zeroed three 5 × (append zeroed three (4 ∷ 5 ∷ []) ≡ throw bad_alloc))
    ⊎ ((c : Buffer) × (append zeroed three (4 ∷ 5 ∷ []) ≡ ok c)
        × (5 ≤ 8)
        × Appended zeroed three (4 ∷ 5 ∷ []) c)
append_result_example = append_result zeroed {b = three} (4 ∷ 5 ∷ []) three-IsValid

calculate_capacity_bounds_example :
    (5 ≤ calculate_capacity three 5) × (calculate_capacity three 5 ≤ 8)
calculate_capacity_bounds_example = calculate_capacity_bounds three 5 (omega arith)

resize_result_example :
    ((8 < 6) × (resize zeroed three 6 ≡ throw length_error))
    ⊎ ((6 ≤ 8) × NoMemory zeroed three 6 × (resize zeroed three 6 ≡ throw bad_alloc))
    ⊎ ((c : Buffer) × (resize zeroed three 6 ≡ ok c) × (6 ≤ 8) × Resized three 6 c)
resize_result_example = resize_result zeroed {b = three} 6 three-IsValid

reserve_result_example :
    ((8 < 6) × (reserve zeroed three 6 ≡ throw length_error))
    ⊎ ((4 < 6) × (zeroed.allocate 6 ≡ none) × (reserve zeroed three 6 ≡ throw bad_alloc))
    ⊎ ((c : Buffer) × (reserve zeroed three 6 ≡ ok c) × (6 ≤ 8) × Grown three 6 c)
reserve_result_example = reserve_result zeroed {b = three} 6 three-IsValid

assign_result_example :
    ((8 < 3) × (assign zeroed three three ≡ throw length_error))
    ⊎ (NoMemory zeroed three 3 × (assign zeroed three three ≡ throw bad_alloc))
    ⊎ ((c : Buffer) × (assign zeroed three three ≡ ok c) × (3 ≤ 8) × Assigned three three c)
assign_result_example = assign_result zeroed {b = three} {other = three} three-IsValid three-IsValid

insert_result_example :
    ((8 < 4) × (insert zeroed three 1 (7 ∷ []) ≡ throw length_error))
    ⊎ ((4 ≤ 8) × NoMemory zeroed three 4 × (insert zeroed three 1 (7 ∷ []) ≡ throw bad_alloc))
    ⊎ ((c : Buffer) × (insert zeroed three 1 (7 ∷ []) ≡ ok c)
        × (4 ≤ 8)
        × (4 < 4)
        × Inserted three 1 (7 ∷ []) (2 ∷ 3 ∷ []) c)
    ⊎ ((c : Buffer) × (insert zeroed three 1 (7 ∷ []) ≡ ok c)
        × (4 ≤ 8)
        × (4 ≤ 4)
        × Inserted three 1 (7 ∷ []) (shifted_tail three 1 1) c)
insert_result_example = insert_result zeroed {b = three} 1 (7 ∷ []) three-IsValid (omega arith)

erase_lem_example : IsValid (erase three 0 2) × (contents (erase three 0 2) ≡ 3 ∷ [])
erase_lem_example = erase_lem {b = three} 0 2 three-IsValid (omega arith) (omega arith)

move_assign_keep_differ_example :
    ((zeroed.allocate 4 ≡ none)
      × (move_assign_keep zeroed 1 false three three ≡ some (throw bad_alloc)))
    ⊎ ((c : Buffer) × (move_assign_keep zeroed 1 false three three ≡ some (ok (c, three)))
        × IsValid c
        × (contents c ≡ contents three)
        × (c.max_size ≡ 8))
move_assign_keep_differ_example =
    move_assign_keep_differ zeroed 0 {b = three} {other = three} three-IsValid three-IsValid

move-IsValid_example :
    (contents (move three).0 ≡ contents three)
    × IsValid (move three).0
    × IsValid (move three).1
    × (contents (move three).1 ≡ [])
    × (move_assign_propagate three three ≡ move three)
move-IsValid_example = move-IsValid {other = three} three three-IsValid

copy_result_example :
    ((zeroed.allocate 3 ≡ none) × (copy zeroed three ≡ throw bad_alloc))
    ⊎ ((c : Buffer) × (copy zeroed three ≡ ok c)
        × IsValid c
        × (contents c ≡ contents three)
        × (c.capacity ≡ 3))
copy_result_example = copy_result zeroed {other = three} three-IsValid

with_size_result_example :
    ((zeroed.allocate 5 ≡ none) × (with_size zeroed 5 8 ≡ throw bad_alloc))
    ⊎ ((c : Buffer) × (with_size zeroed 5 8 ≡ ok c) × IsValid c × (length (contents c) ≡ 5))
with_size_result_example = with_size_result zeroed 5 8 (omega arith) (omega arith)
