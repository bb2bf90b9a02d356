-- ===== src/FileHandle.antt =====
-- Operations on a file by its handle on POSIX systems: include/asioext/impl/file_handle_posix.cpp,
-- include/asioext/impl/file_handle.cpp and include/asioext/impl/file_handle_posix.hpp.
--
-- A handle is its descriptor, where -1 is `none`. What the system answers for a descriptor is a
-- parameter, as is how many buffers Asio's `buffer_sequence_adapter` passes on. Buffers are given by
-- their sizes. A value of a function without one is 0.
use asio_extensions.Prelude.{
  ℕ, ◌≡◌, ◌≢◌, refl, Bool, true, List, [], ◌∷◌, take, Option, none, some, Option-cases, ℤ, pos,
  if◌then◌else◌, Bool-cases, inl, inr,
}
use asio_extensions.Posix.{
  Answer, fails, Code, no_error, system, Transfer, number_or_error, set_size, readv, preadv, writev,
  pwritev,
}
use asio_extensions.Posix.Retry.{read_run, write_run}
use asio_extensions.FileAttrs.{
  Row, change, attributes, set_attributes, permissions, set_permissions, adds_or_removes,
}
use asio_extensions.Handles.{ok, posix_close}
use asio_extensions.Times.File.{Stat, FileTimes, TimesCode, get_times, set_times}

-- `ASIOEXT_HAS_FILE_FLAGS`, and the calls of the system on a descriptor; `fstat_times` is what `fstat`
-- gives of the times, and the last one is what a repeated transfer is answered
pub record FileCalls : Type 0 where
  pub has_file_flags : Bool
  pub lseek : Option ℕ → ℕ → ℤ → Answer
  pub fstat_size : Option ℕ → Answer
  pub fstat_mode : Option ℕ → Answer
  pub fstat_flags : Option ℕ → Answer
  pub fstat_times : Option ℕ → Answer × Stat
  pub futimens : Option ℕ → Answer
  pub ftruncate : Option ℕ → ℕ → Answer
  pub fchmod : Option ℕ → ℕ → Answer
  pub fchflags : Option ℕ → ℕ → Answer
  pub transfers : Option ℕ → List Answer

-- the functions of `file_handle` that take an `error_code` and give a number or nothing
pub data FileOp : Type 0 where
  position size get_permissions get_attributes : FileOp
  seek : ℕ → ℤ → FileOp
  truncate : ℕ → FileOp
  permissions_to attributes_to : ℕ → ℕ → FileOp

-- what the same function without an `error_code` gives or throws
pub data Thrown : Type 0 where
  value : ℕ → Thrown
  throws : Code → Thrown

abbrev pub done : Code → ℕ × Code
done ec = (0, ec)

-- `close`, which gives the handle up whatever the system answers
abbrev pub file_close : (ℕ → Answer) → Option ℕ → Option ℕ × Code
file_close sys none = (none, no_error)
file_close sys (some fd) = (none, posix_close sys fd)

module _ (rows : List Row) (calls : FileCalls) where
  abbrev pub seek_to : Option ℕ → ℕ → ℤ → ℕ × Code
  seek_to h origin offset = number_or_error (calls.lseek h origin offset)

  pub call_op : FileOp → Option ℕ → ℕ × Code
  call_op position h = seek_to h 1 (pos 0)
  call_op (seek origin offset) h = seek_to h origin offset
  call_op size h = number_or_error (calls.fstat_size h)
  call_op (truncate new_size) h = done (set_size (calls.ftruncate h new_size))
  call_op get_permissions h = permissions (calls.fstat_mode h)
  call_op (permissions_to perms opts) h =
      done (set_permissions (calls.fstat_mode h) (calls.fchmod h) perms opts).0
  call_op get_attributes h =
      if calls.has_file_flags then attributes rows (calls.fstat_flags h) else (0, no_error)
  call_op (attributes_to attrs opts) h = done (
      if calls.has_file_flags
      then (set_attributes rows (calls.fstat_flags h) (calls.fchflags h) attrs opts).0
      else no_error)

  -- `times`, the getter and the setter, with the times that are there before
  abbrev pub times : Option ℕ → FileTimes → FileTimes × TimesCode
  times h old = let (answer, stat) = calls.fstat_times h in get_times answer stat old

  abbrev pub times_to : FileTimes → Option ℕ → TimesCode
  times_to new_times h = (set_times (calls.futimens h) new_times).1

  -- the functions without an `error_code`, which end in `throw_error`
  pub call_throwing : FileOp → Option ℕ → Thrown
  call_throwing op h = let (v, ec) = call_op op h in if ok ec then value v else throws ec

  -- `read_some`, `read_some_at`, `write_some` and `write_some_at`; those at an offset
  -- where the system has vectored calls for it. What is written does not matter to the answers.
  abbrev pub read_some : ℕ → ℕ → Option ℕ → List ℕ → Option Transfer
  read_some max_buffers eintr h buffers = readv eintr (take max_buffers buffers) (calls.transfers h)

  abbrev pub read_some_at : ℕ → ℕ → Option ℕ → List ℕ → Option Transfer
  read_some_at max_buffers eintr h buffers =
      preadv eintr (take max_buffers buffers) (calls.transfers h)

  abbrev pub write_some : ℕ → Option ℕ → Option Transfer
  write_some eintr h = writev eintr (calls.transfers h)

  abbrev pub write_some_at : ℕ → Option ℕ → Option Transfer
  write_some_at eintr h = pwritev eintr (calls.transfers h)

-- No call accepts -1: it fails with EBADF.
pub record NoDescriptor (calls : FileCalls) (ebadf : ℕ) : Type 0 where
  pub no_lseek : (origin : ℕ) (offset : ℤ) → calls.lseek none origin offset ≡ fails ebadf
  pub no_size : calls.fstat_size none ≡ fails ebadf
  pub no_mode : calls.fstat_mode none ≡ fails ebadf
  pub no_flags : calls.fstat_flags none ≡ fails ebadf
  pub no_truncate : (n : ℕ) → calls.ftruncate none n ≡ fails ebadf
  pub no_chmod : (m : ℕ) → calls.fchmod none m ≡ fails ebadf
  pub no_chflags : (f : ℕ) → calls.fchflags none f ≡ fails ebadf
  pub no_transfers : calls.transfers none ≡ fails ebadf ∷ []

-- A change that the system refuses, first or last, gives the error.
change_refused :
    (fstat : Answer) (set : ℕ → Answer) (opts v e : ℕ)
    → fstat ≡ fails e
    → ((n : ℕ) → set n ≡ fails e)
    → (change fstat opts v set).0 ≡ system e
unfolding change
change_refused fstat set opts v e no_stat refuses = elim (Bool-cases (adds_or_removes opts)) [
  | inl both ↦ rw (both, no_stat) refl
  | inr replaces ↦ rw (replaces, refuses v) refl
]

-- Without file flags the attributes are not asked of the system.
abbrev pub asks : FileCalls → FileOp → Bool
asks calls get_attributes = calls.has_file_flags
asks calls (attributes_to attrs opts) = calls.has_file_flags
asks calls _ = true

call_op-none :
    (rows : List Row) (calls : FileCalls) (ebadf : ℕ) (op : FileOp)
    → NoDescriptor calls ebadf
    → (call_op rows calls op none).1 ≡ (if asks calls op then system ebadf else no_error)
unfolding call_op number_or_error set_size permissions attributes
call_op-none rows calls ebadf position n = rw (n.no_lseek 1 (pos 0)) refl
call_op-none rows calls ebadf (seek origin offset) n = rw (n.no_lseek origin offset) refl
call_op-none rows calls ebadf size n = rw n.no_size refl
call_op-none rows calls ebadf (truncate s) n = rw (n.no_truncate s) refl
call_op-none rows calls ebadf get_permissions n = rw n.no_mode refl
call_op-none rows calls ebadf (permissions_to perms opts) n =
    change_refused (calls.fstat_mode none) (calls.fchmod none) opts _ ebadf n.no_mode n.no_chmod
call_op-none rows calls ebadf get_attributes n = elim (Bool-cases calls.has_file_flags) [
  | inl there ↦ rw (there, n.no_flags) refl
  | inr missing ↦ rw missing refl
]
call_op-none rows calls ebadf (attributes_to attrs opts) n =
    elim (Bool-cases calls.has_file_flags) [
      | inl there ↦ rw there (
          change_refused (calls.fstat_flags none) (calls.fchflags none) opts _ ebadf n.no_flags
            n.no_chflags)
      | inr missing ↦ rw missing refl
    ]

-- Behind a `close`, whatever it was answered, a function that gives a number or nothing gives the
-- error of a bad descriptor, but for the attributes where the system has no file flags, which give
-- no error. Reads and writes give that error, however many buffers they have, and a second `close`
-- gives none. The system refuses the descriptor -1, with another error than the one of an
-- interruption.
pub closed_file_fails :
    (rows : List Row) (calls : FileCalls) (sys : ℕ → Answer) (max_buffers eintr ebadf : ℕ)
    (h : Option ℕ) (op : FileOp) (buffers : List ℕ)
    → NoDescriptor calls ebadf
    → fails ebadf ≢ fails eintr
    → let h' = (file_close sys h).0 in
      ((call_op rows calls op h').1 ≡ (if asks calls op then system ebadf else no_error))
      × (read_some rows calls max_buffers eintr h' buffers ≡ some (0, system ebadf))
      × (read_some_at rows calls max_buffers eintr h' buffers ≡ some (0, system ebadf))
      × (write_some rows calls eintr h' ≡ some (0, system ebadf))
      × (write_some_at rows calls eintr h' ≡ some (0, system ebadf))
      × ((file_close sys h').1 ≡ no_error)
closed_file_fails rows calls sys max_buffers eintr ebadf h op buffers n apart =
    let (r, r', r'') = read_run eintr 0 (take max_buffers buffers) (fails ebadf) [] apart in
    let (w, w', w'') = write_run eintr 0 (fails ebadf) [] apart in
    let closes : (file_close sys h).0 ≡ none = elim (Option-cases h) [
      | inl gone ↦ rw gone refl
      | inr (fd, has) ↦ rw has refl
    ] in
    rw closes (
      call_op-none rows calls ebadf op n,
      rw n.no_transfers r,
      rw n.no_transfers r',
      rw n.no_transfers w,
      rw n.no_transfers w',
      refl,
    )
