-- ===== src/ReadFile.antt =====
-- Reading a whole file into a buffer: `read_file(file_handle, RawByteContainer&, error_code&)` of
-- include/asioext/impl/read_file.hpp, for `basic_linear_buffer`.
--
-- `file.size(ec)` is what `fstat` answers, and `asio::read` a parameter: the bytes that it transfers into
-- a region of the length given, and its code. The function is `noexcept`, so an exception ends the
-- program.
use asio_extensions.Prelude.{
  ℕ, ◌-◌, ◌≤◌, ◌<◌, ◌≡◌, ◌⊎◌, inl, inr, refl, subst, ap, ◌∙◌, Bool, ◌||◌, ltb, [], ◌==◌, ==_iff,
  if◌then◌else◌, Bytes, take, length, write_at, length-write_at, take-write_at, take-take,
  Bool-cases, arith,
}
use asio_extensions.Posix.{Answer, returns, fails}
use asio_extensions.LinearBuffer.{
  Allocator, Buffer, size_mod, Outcome, ok, throw, Exception, bad_alloc, contents, clear, resize,
}
use asio_extensions.LinearBuffer.Growth.{IsValid, NoMemory, length-contents}
use asio_extensions.LinearBuffer.Resize.{resize_result}

pub data ReadCode : Type 0 where
  no_error message_size eof : ReadCode
  system : ℕ → ReadCode

pub data Result : Type 0 where
  finished : Buffer → ReadCode → Result
  terminated : Exception → Result

-- `size > max() || size > c.max_size()`
abbrev pub too_large : Buffer → ℕ → Bool
too_large b size = ltb (size_mod - 1) size || ltb b.max_size size

-- `asio::read(file, asio::buffer(&c[0], c.size()), ec)`
abbrev pub read_into : (ℕ → Bytes × ReadCode) → Outcome Buffer → Result
read_into read (throw e) = terminated e
read_into read (ok c) =
    let (xs, ec) = read c.size in finished (record c { store = write_at c.store 0 xs }) ec

module _ (al : Allocator) where
  pub read_file : Answer → (ℕ → Bytes × ReadCode) → Buffer → Result
  read_file (fails e) read b = finished b (system e)
  read_file (returns size) read b =
      if too_large b size
      then finished b message_size
      else if size == 0
      then finished (clear b) no_error
      else read_into read (resize al b size)

-- the bytes read stand at the front of the buffer
pub record Filled (size : ℕ) (xs : Bytes) (c : Buffer) : Type 0 where
  pub valid : IsValid c
  pub size_is : length (contents c) ≡ size
  pub front : take (length xs) (contents c) ≡ xs

fill-Filled :
    (c : Buffer) (xs : Bytes)
    → IsValid c
    → length xs ≤ c.size
    → Filled c.size xs (record c { store = write_at c.store 0 xs })
fill-Filled c xs v h =
    let valid : IsValid (record c { store = write_at c.store 0 xs }) = record {
      block = length-write_at c.store 0 xs ∙ v.block;
      fits = v.fits;
      capacity_small = v.capacity_small;
      max_small = v.max_small;
    } in
    record {
      valid = valid;
      size_is = length-contents valid;
      front =
          take-take (length xs) c.size (write_at c.store 0 xs) h
          ∙ take-write_at c.store 0 (length xs) xs (omega arith) (omega (arith, v.block, v.fits));
    }

-- For a file whose size is known, one of four things happens: it is larger than the buffer may be, and
-- nothing is changed; there is no memory for it, and the program ends; it is empty, and so is the
-- buffer; or the buffer has just as many bytes as the file, with those that were read at the front,
-- and the code of the read. The program never ends for another reason.
pub read_file_result :
    (al : Allocator) (size : ℕ) (read : ℕ → Bytes × ReadCode) (b : Buffer)
    → IsValid b
    → length (read size).0 ≤ size
    → ((b.max_size < size) × (read_file al (returns size) read b ≡ finished b message_size))
      ⊎ (NoMemory al b size × (read_file al (returns size) read b ≡ terminated bad_alloc))
      ⊎ ((size ≡ 0)
          × (read_file al (returns size) read b ≡ finished (clear b) no_error)
          × (contents (clear b) ≡ []))
      ⊎ ((c : Buffer) × (read_file al (returns size) read b ≡ finished c (read size).1)
          × Filled size (read size).0 c)
unfolding read_file
read_file_result al size read b v h = elim (Bool-cases (too_large b size)) [
  | inl large ↦ inl (let m = v.max_small in ground arith, rw large refl)
  | inr fits ↦ elim (Bool-cases (size == 0)) [
    | inl none_left ↦ inr (inr (inl ((==_iff size 0).0 none_left, rw (fits, none_left) refl, refl)))
    | inr some_left ↦ elim (resize_result al {b = b} size v) [
      | inl (long, e) ↦ absurd (ground arith)
      | inr (inl (within, no_memory, e)) ↦ inr (inl (no_memory, rw (fits, some_left, e) refl))
      | inr (inr (c, e, within, r)) ↦
          let xs = (read size).0 in
          let filled : Filled size xs (record c { store = write_at c.store 0 xs }) =
            subst (λ n. Filled n xs (record c { store = write_at c.store 0 xs })) r.size_is
              (fill-Filled c xs r.valid (omega (arith, r.size_is))) in
          let runs : read_into read (ok c)
              ≡ finished (record c { store = write_at c.store 0 xs }) (read size).1 =
            ap (λ n. finished (record c { store = write_at c.store 0 (read n).0 }) (read n).1)
              r.size_is in
          inr (inr (inr (_, rw (fits, some_left, e) runs, filled)))
    ]
  ]
]
