-- ===== src/Windows/ReadSome.antt =====
-- Reading and writing several buffers on Windows: include/asioext/impl/file_handle_win.hpp with
-- include/asioext/detail/buffer.hpp.
--
-- A buffer sequence is the sizes of its buffers, of 64 bits. What `ReadFile` and `WriteFile` answer is a
-- function of the size that they are given, and of the two halves of the offset.
use asio_extensions.Prelude.{
  ℕ, zero, suc, ◌+◌, ◌*◌, ◌%◌, ◌^◌, ◌<◌, ◌≡◌, ◌≢◌, refl, sym, ◌∙◌, ap, Bool, true, false, ◌&&◌,
  List, [], ◌∷◌, some, ltb, ◌==◌, ==_iff, if◌then◌else◌, Bool-cases, inl, inr, and_true, arith,
}
use asio_extensions.Posix.{Answer, returns, fails, Code, no_error, readv, preadv, writev, pwritev}
use asio_extensions.Posix.Retry.{total, read_answer, write_answer, read_run, write_run}
use asio_extensions.Windows.{read, write, pread, pwrite}

-- `first_mutable_buffer` and `first_const_buffer`: the size of the first buffer that is not empty
pub first_buffer : List ℕ → ℕ
first_buffer [] = 0
first_buffer (size ∷ buffers) = let rest = first_buffer buffers in if size == 0 then rest else size

-- `static_cast<uint32_t>`
abbrev pub uint32 : ℕ → ℕ
uint32 n = n % 2 ^ 32

abbrev pub read_some : (ℕ → Answer) → List ℕ → Code → ℕ × Code
read_some read_file buffers ec =
    let size = uint32 (first_buffer buffers) in read (read_file size) size ec

abbrev pub write_some : (ℕ → Answer) → List ℕ → Code → ℕ × Code
write_some write_file buffers ec =
    let size = uint32 (first_buffer buffers) in write (write_file size) ec

abbrev pub read_some_at : (ℕ → ℕ → ℕ → Answer) → ℕ → List ℕ → Code → ℕ × Code
read_some_at read_file offset buffers ec =
    let size = uint32 (first_buffer buffers) in pread (read_file size) size offset ec

abbrev pub write_some_at : (ℕ → ℕ → ℕ → Answer) → ℕ → List ℕ → Code → ℕ × Code
write_some_at write_file offset buffers ec =
    let size = uint32 (first_buffer buffers) in pwrite (write_file size) offset ec

-- No buffer has 4 GiB or more.
abbrev pub small : List ℕ → Bool
small [] = true
small (size ∷ buffers) = ltb size (2 ^ 32) && small buffers

ltb_below : (a b : ℕ) → ltb a b ≡ true → a < b
ltb_below a b h = ground arith

first_buffer-small : (buffers : List ℕ) → small buffers ≡ true → first_buffer buffers < 2 ^ 32
unfolding first_buffer
first_buffer-small [] s = omega arith
first_buffer-small (size ∷ buffers) s =
    let (h, t) = and_true _ _ s in
    let rest = first_buffer-small buffers t in
    elim (Bool-cases (size == 0)) [
      | inl empty ↦ rw empty rest
      | inr full ↦ rw full (ltb_below size (2 ^ 32) h)
    ]

-- It is empty just where all buffers are.
first_buffer-total : (buffers : List ℕ) → (first_buffer buffers == 0) ≡ (total buffers == 0)
unfolding first_buffer
first_buffer-total [] = refl
first_buffer-total (size ∷ buffers) =
    let rest = first_buffer-total buffers in
    elim (Bool-cases (size == 0)) [
      | inl empty ↦
          let e = (==_iff size 0).0 empty in rw empty (rest ∙ ap (λ (n : ℕ). n == 0) (omega arith))
      | inr full ↦
          let more : (size + total buffers == 0) ≡ false = ground arith in rw (full, more) full
    ]

read-read_answer :
    (a : Answer) (size room : ℕ)
    → (size == 0) ≡ (room == 0)
    → read a size no_error ≡ read_answer room a
unfolding read
read-read_answer (returns zero) size room e = elim (Bool-cases (room == 0)) [
  | inl empty ↦ rw (e ∙ empty, empty) refl
  | inr full ↦ rw (e ∙ full, full) refl
]
read-read_answer (returns (suc n)) size room e = refl
read-read_answer (fails x) size room e = refl

write-write_answer : (a : Answer) → write a no_error ≡ write_answer a
unfolding write
write-write_answer (returns n) = refl
write-write_answer (fails x) = refl

-- Where no buffer has 4 GiB or more and the caller's error code is clear, reading and writing several
-- buffers on Windows gives the same as the vectored calls of POSIX systems do for the same answer:
-- the bytes, or the error, or the end of the file where some buffer has room but nothing was read.
pub read_some-readv :
    (eintr offset : ℕ) (buffers : List ℕ) (io : ℕ → Answer)
    → small buffers ≡ true
    → io (first_buffer buffers) ≢ fails eintr
    → let answers = io (first_buffer buffers) ∷ [] in
      (some (read_some io buffers no_error) ≡ readv eintr buffers answers)
      × (some (read_some_at (λ size low high. io size) offset buffers no_error)
          ≡ preadv eintr buffers answers)
      × (some (write_some io buffers no_error) ≡ writev eintr answers)
      × (some (write_some_at (λ size low high. io size) offset buffers no_error)
          ≡ pwritev eintr answers)
read_some-readv eintr offset buffers io s h =
    let size = first_buffer buffers in
    let same : uint32 size ≡ size = let below = first_buffer-small buffers s in omega arith in
    let (vectored, at_offset, one) = read_run eintr 0 buffers (io size) [] h in
    let (written, written_at, written_one) = write_run eintr 0 (io size) [] h in
    let reads : some (read (io size) size no_error) ≡ some (read_answer (total buffers) (io size)) =
      ap some (read-read_answer (io size) size (total buffers) (first_buffer-total buffers)) in
    let writes : some (write (io size) no_error) ≡ some (write_answer (io size)) =
      ap some (write-write_answer (io size)) in
    (
      rw same (reads ∙ sym vectored),
      rw same (reads ∙ sym at_offset),
      rw same (writes ∙ sym written),
      rw same (writes ∙ sym written_at),
    )

-- A first buffer of a multiple of 4 GiB is given to the system with no size. As `ReadFile` then reads
-- nothing and succeeds, nothing is read, without an error and without the end of the file, whatever is
-- in the file.
pub read_some_stuck :
    (n : ℕ) (buffers : List ℕ) (io : ℕ → Answer) (ec : Code)
    → io 0 ≡ returns 0
    → read_some io (2 ^ 32 * suc n ∷ buffers) ec ≡ (0, ec)
unfolding read first_buffer
read_some_stuck n buffers io ec idle =
    let some_room : (2 ^ 32 * suc n == 0) ≡ false = ground arith in
    let no_size : uint32 (2 ^ 32 * suc n) ≡ 0 = omega arith in rw (some_room, no_size, idle) refl
