-- ===== src/DynamicBuffer.antt =====
-- `dynamic_linear_buffer` of include/asioext/linear_buffer.hpp and
-- include/asioext/impl/linear_buffer.hpp: a `basic_linear_buffer` seen as Asio's DynamicBuffer.
--
-- The object holds a reference to the buffer; here the buffer stands in the record, and each method
-- returns it changed. The members under ASIOEXT_NO_DYNAMIC_BUFFER_V1 are compiled in. A buffer
-- sequence that a method returns is an offset into the block and a number of bytes.
pub mod Queue
pub mod Window
use asio_extensions.Prelude.{
  ℕ, ◌+◌, ◌-◌, min, Bool, ◌||◌, ltb, ◌==◌, if◌then◌else◌, Option, none, some, Bytes, write_at,
}
use asio_extensions.LinearBuffer.{
  Allocator, Exception, length_error, Outcome, ok, throw, ◌>>=◌, Buffer, size_mod, add_size,
  sub_size, erase, resize,
}

-- `(std::numeric_limits<std::size_t>::max)()`: no size was taken over yet
abbrev pub npos : ℕ
npos = size_mod - 1

pub record Dynamic : Type 0 where
  pub target : Buffer
  pub size_ : ℕ
  pub max_size : ℕ

pub record Region : Type 0 where
  pub offset : ℕ
  pub len : ℕ

abbrev pub make : Buffer → ℕ → Dynamic
make b maximum = record { target = b; size_ = npos; max_size = min b.max_size maximum }

pub size : Dynamic → ℕ
size d = if d.size_ == npos then min d.target.size d.max_size else d.size_

abbrev pub capacity : Dynamic → ℕ
capacity d = min d.target.capacity d.max_size

-- `data()`
pub all_data : Dynamic → Region
all_data d = record { offset = 0; len = d.size_ }

-- `data(pos, n)`
pub data_at : Dynamic → ℕ → ℕ → Region
data_at d pos n =
    let siz = d.target.size in
    let start = if ltb siz pos then siz else pos in
    record { offset = start; len = if ltb siz (add_size start n) then sub_size siz start else n }

-- the size that `prepare` starts from, and its test that `n` more bytes are too many
abbrev pub start_size : Dynamic → ℕ
start_size d = if d.size_ == npos then d.target.size else d.size_

abbrev pub too_long : Dynamic → ℕ → ℕ → Bool
too_long d siz n = ltb d.max_size siz || ltb (d.max_size - siz) n

module _ (al : Allocator) where
  -- the end of both `prepare`s: the buffer is resized, and the new bytes are handed out
  unfoldable pub prepare_from : Dynamic → ℕ → ℕ → Outcome (Dynamic × Region)
  prepare_from d siz n = do
    b ← resize al d.target (add_size siz n)
    ok (record d { target = b; size_ = siz }, record { offset = siz; len = sub_size b.size siz })

  unfoldable pub prepare : Dynamic → ℕ → Outcome (Dynamic × Region)
  unfolding prepare_from
  prepare d n =
      if too_long d (start_size d) n then throw length_error else prepare_from d (start_size d) n

  -- `prepare(n, ec)`: `none` is `asio::error::no_memory` with an empty sequence. What `resize`
  -- throws leaves it too.
  pub prepare_ec : Dynamic → ℕ → Outcome (Dynamic × Option Region)
  unfolding prepare_from
  prepare_ec d n =
      if too_long d (start_size d) n
      then ok (d, none)
      else do r ← prepare_from d (start_size d) n; ok (r.0, some r.1)

  pub commit : Dynamic → ℕ → Outcome Dynamic
  commit d n =
      let siz = add_size d.size_ (min n (sub_size d.target.size d.size_)) in
      do b ← resize al d.target siz; ok (record d { target = b; size_ = siz })

  pub grow : Dynamic → ℕ → Outcome Dynamic
  grow d n =
      let siz = size d in
      if too_long d siz n
      then throw length_error
      else do b ← resize al d.target (add_size siz n); ok (record d { target = b })

  pub shrink : Dynamic → ℕ → Outcome Dynamic
  shrink d n =
      let siz = size d in
      do b ← resize al d.target (sub_size siz (min siz n)); ok (record d { target = b })

unfoldable pub consume : Dynamic → ℕ → Dynamic
consume d n =
    if d.size_ == npos
    then record d { target = erase d.target 0 (min (min d.target.size d.max_size) n) }
    else record d {
      target = erase d.target 0 (min n d.size_);
      size_ = sub_size d.size_ (min n d.size_);
    }

-- What the user of `prepare` does with the bytes it got: it writes `xs` there.
abbrev pub fill : Dynamic → Region → Bytes → Dynamic
fill d r xs = record d {
  target = record (d.target) { store = write_at d.target.store r.offset xs };
}
