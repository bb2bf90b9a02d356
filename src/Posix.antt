-- ===== src/Posix.antt =====
-- The calls of include/asioext/detail/impl/posix_file_ops.cpp, most of which are repeated when a signal
-- interrupts them.
--
-- The system is a list of answers, one for each time the call is made, and a function that runs out of
-- answers, still repeating, gives `none`. `EINTR` is a parameter. The buffers of a vectored call are
-- given by their lengths.
pub mod Retry
pub mod Open
pub mod Args
use asio_extensions.Prelude.{
  ℕ, zero, suc, Bool, true, false, List, [], ◌∷◌, Option, none, some, ◌==◌, if◌then◌else◌, not,
}

-- what a system call returns, or the `errno` that it fails with
pub data Answer : Type 0 where
  returns : ℕ → Answer
  fails : ℕ → Answer

-- an `error_code`
pub data Code : Type 0 where
  no_error eof : Code
  system : ℕ → Code

-- the number of bytes, and the code
abbrev pub Transfer : Type 0
Transfer = ℕ × Code

-- the loop over the lengths behind a read of 0 bytes
abbrev pub at_end : List ℕ → Transfer
at_end [] = (0, no_error)
at_end (len ∷ lens) = let rest = at_end lens in if not (len == 0) then (0, eof) else rest

-- the end of `pread` behind a read of 0 bytes
abbrev pub at_end_of : ℕ → Transfer
at_end_of size = if size == 0 then (0, no_error) else (0, eof)

module _ (eintr : ℕ) where
  -- the loop of the reads; the first argument is what a read of 0 bytes leads to
  pub read_loop : Transfer → List Answer → Option Transfer
  read_loop end [] = none
  read_loop end (returns zero ∷ answers) = some end
  read_loop end (returns (suc n) ∷ answers) = some (suc n, no_error)
  read_loop end (fails e ∷ answers) =
      let again = read_loop end answers in if e == eintr then again else some (0, system e)

  -- the loop of the writes
  pub write_loop : List Answer → Option Transfer
  write_loop [] = none
  write_loop (returns n ∷ answers) = some (n, no_error)
  write_loop (fails e ∷ answers) =
      let again = write_loop answers in if e == eintr then again else some (0, system e)

  abbrev pub readv : List ℕ → List Answer → Option Transfer
  readv bufs answers = read_loop (at_end bufs) answers

  abbrev pub preadv : List ℕ → List Answer → Option Transfer
  preadv bufs answers = read_loop (at_end bufs) answers

  abbrev pub pread : ℕ → List Answer → Option Transfer
  pread size answers = read_loop (at_end_of size) answers

  abbrev pub writev : List Answer → Option Transfer
  writev answers = write_loop answers

  abbrev pub pwritev : List Answer → Option Transfer
  pwritev answers = write_loop answers

  abbrev pub pwrite : List Answer → Option Transfer
  pwrite answers = write_loop answers

-- `duplicate`; a descriptor of -1 is `none`
pub duplicate : Answer → Option ℕ × Code
duplicate (returns fd) = (some fd, no_error)
duplicate (fails e) = (none, system e)

-- the getter `size`, and `seek`
unfoldable pub number_or_error : Answer → ℕ × Code
number_or_error (returns n) = (n, no_error)
number_or_error (fails e) = (0, system e)

-- the setter `size`
unfoldable pub set_size : Answer → Code
set_size (returns r) = no_error
set_size (fails e) = system e
