-- ===== src/LinearBuffer.antt =====
-- `basic_linear_buffer` of include/asioext/linear_buffer.hpp and
-- include/asioext/impl/linear_buffer.hpp: a growing array of bytes in one allocated block.
--
-- `store` is the block behind `rep_.data_`, byte by byte, and [] for a null pointer. A method that
-- throws leaves the object as it was, since every throw comes before the first write, so an
-- `Outcome` holds the new object or the exception. The allocator is an argument: `std::allocator`
-- is not code of this repository. The data that `append` and `insert` are given is taken not to
-- lie in the buffer's own block.
pub mod Growth
pub mod Resize
pub mod Edit
pub mod Move
use asio_extensions.Prelude.{
  ℕ, zero, suc, ◌+◌, ◌-◌, ◌*◌, ◌%◌, ◌^◌, min, max, ◌≡◌, Bool, true, false, ◌||◌, [], Option, none,
  some, ltb, if◌then◌else◌, Bytes, length, take, write_at, read_at, move_within,
}

-- What the buffer asks of its allocator; `none` is a thrown `std::bad_alloc`.
pub record Allocator : Type 0 where
  pub allocate : ℕ → Option Bytes
  pub max_size : ℕ
  pub length-allocate : (n : ℕ) (block : Bytes) → allocate n ≡ some block → length block ≡ n

pub data Exception : Type 0 where
  length_error bad_alloc : Exception

pub data Outcome (A : Type 0) : Type 0 where
  ok : A → Outcome A
  throw : Exception → Outcome A

infixl 5 ◌>>=◌
abbrev pub ◌>>=◌ : {A B : Type 0} → Outcome A → (A → Outcome B) → Outcome B
ok a >>= f = f a
throw e >>= f = throw e

pub ok-injective : {A : Type 0} {a b : A} → ok a ≡ ok b → a ≡ b
ok-injective h = cc

pub record Buffer : Type 0 where
  pub store : Bytes
  pub capacity : ℕ
  pub size : ℕ
  pub max_size : ℕ

-- `std::size_t` has 64 bits.
abbrev pub size_mod : ℕ
size_mod = 2 ^ 64

abbrev pub add_size : ℕ → ℕ → ℕ
add_size a b = (a + b) % size_mod

abbrev pub sub_size : ℕ → ℕ → ℕ
sub_size a b = (a + size_mod - b) % size_mod

-- the bytes that the buffer holds, `begin()` to `end()`
abbrev pub contents : Buffer → Bytes
contents b = take b.size b.store

-- `calculate_capacity`: twice the capacity, but at least `n`, and at most the maximum. Doubling
-- wraps round as `size_t` does.
pub calculate_capacity : Buffer → ℕ → ℕ
calculate_capacity b n =
    let doubled = (b.capacity * 2) % size_mod in
    if ltb doubled b.max_size then max n doubled else b.max_size

-- the test of `append` and `insert` that `n` more bytes are too many
abbrev pub too_long : Buffer → ℕ → Bool
too_long b n = ltb b.max_size b.size || ltb (b.max_size - b.size) n

-- `erase(pos)`: one byte
pub erase_one : Buffer → ℕ → Buffer
erase_one b pos = record b {
  store = move_within b.store pos (pos + 1) (sub_size (sub_size b.size pos) 1);
  size = sub_size b.size 1;
}

-- `erase(first, last)`: a range
pub erase : Buffer → ℕ → ℕ → Buffer
erase b first last =
    let n = sub_size last first in
    record b {
      store = move_within b.store first last (sub_size (sub_size b.size first) n);
      size = sub_size b.size n;
    }

abbrev pub clear : Buffer → Buffer
clear b = record b { size = 0 }

-- the move constructor: the new object, and what is left of `other`
unfoldable pub move : Buffer → Buffer × Buffer
move other = (other, record other { store = []; capacity = 0; size = 0 })

-- `move_assign(other, std::true_type)`: the allocator moves too. Returns both objects.
unfoldable pub move_assign_propagate : Buffer → Buffer → Buffer × Buffer
move_assign_propagate b other = (other, record other { store = []; capacity = 0; size = 0 })

module _ (al : Allocator) where
  abbrev pub empty : Buffer
  empty = record { store = []; capacity = 0; size = 0; max_size = al.max_size }

  -- the constructor from a size; the new bytes are as the allocator left them
  pub with_size : ℕ → ℕ → Outcome Buffer
  with_size initial maximum = elim (al.allocate initial) [
    | none ↦ throw bad_alloc
    | some block ↦ ok (record {
      store = block;
      capacity = initial;
      size = initial;
      max_size = min al.max_size maximum;
    })
  ]

  pub copy : Buffer → Outcome Buffer
  copy other = elim (al.allocate other.size) [
    | none ↦ throw bad_alloc
    | some block ↦ ok (record {
      store = write_at block 0 (contents other);
      capacity = other.size;
      size = other.size;
      max_size = other.max_size;
    })
  ]

  -- `fn` fills the new block before the old one is given back.
  pub reallocate : Buffer → ℕ → (Bytes → Bytes) → Outcome Buffer
  reallocate b cap fn = elim (al.allocate cap) [
    | none ↦ throw bad_alloc
    | some block ↦ ok (record b { store = fn block; capacity = cap })
  ]

  -- the copy of the old bytes that `append`, `reserve` and `resize` hand to `reallocate`
  abbrev copy_old : Buffer → Bytes → Bytes
  copy_old b block = write_at block 0 (contents b)

  pub assign : Buffer → Buffer → Outcome Buffer
  unfolding reallocate
  assign b other =
      let n = other.size in
      if ltb b.max_size n then throw length_error else do
        c ←
            if ltb b.capacity n
            then reallocate b (calculate_capacity b n) (λ block. block)
            else ok b
        ok (record c { store = write_at c.store 0 (contents other); size = n })

  pub append : Buffer → Bytes → Outcome Buffer
  unfolding reallocate
  append b xs =
      let n = length xs in
      if too_long b n then throw length_error else do
        c ←
            if ltb b.capacity (add_size b.size n)
            then reallocate b (calculate_capacity b (add_size b.size n)) (copy_old b)
            else ok b
        ok (record c { store = write_at c.store b.size xs; size = add_size b.size n })

  -- the bytes before and behind the gap, copied into a new block
  abbrev split_into : Buffer → ℕ → Bytes → Bytes → Bytes
  split_into b before xs block =
      write_at (write_at (write_at block 0 (read_at b.store 0 before)) before xs)
        (before + length xs) (read_at b.store before (sub_size b.size before))

  -- With room in the block the bytes are moved from `before + n` to `before`, as the source does.
  pub insert : Buffer → ℕ → Bytes → Outcome Buffer
  unfolding reallocate
  insert b before xs =
      let n = length xs in
      if too_long b n then throw length_error else do
        c ←
            if ltb b.capacity (add_size b.size n)
            then reallocate b (calculate_capacity b (add_size b.size n)) (split_into b before xs)
            else ok (record b {
              store =
                  write_at (move_within b.store before (before + n) (sub_size b.size before)) before
                    xs;
            })
        ok (record c { size = add_size b.size n })

  pub reserve : Buffer → ℕ → Outcome Buffer
  unfolding reallocate
  reserve b min_cap =
      if ltb b.max_size min_cap
      then throw length_error
      else if ltb b.capacity min_cap
      then reallocate b min_cap (copy_old b)
      else ok b

  unfoldable pub resize : Buffer → ℕ → Outcome Buffer
  unfolding reallocate
  resize b new_size = if ltb b.max_size new_size then throw length_error else do
    c ←
        if ltb b.capacity new_size
        then reallocate b (calculate_capacity b new_size) (copy_old b)
        else ok b
    ok (record c { size = new_size })

  -- `move_assign(other, std::false_type)`: the allocator stays. `equal` is the comparison of the two
  -- allocators. Where they are equal the source calls this same function again; `none` is fuel that
  -- ran out.
  pub move_assign_keep : ℕ → Bool → Buffer → Buffer → Option (Outcome (Buffer × Buffer))
  move_assign_keep zero equal b other = none
  move_assign_keep (suc fuel) true b other = move_assign_keep fuel true b other
  move_assign_keep (suc fuel) false b other = elim (al.allocate other.capacity) [
    | none ↦ some (throw bad_alloc)
    | some block ↦ some (
        ok (
          record b {
            store = write_at block 0 (contents other);
            capacity = other.capacity;
            size = other.size;
          },
          other,
        ))
  ]
