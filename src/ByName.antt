-- ===== src/ByName.antt =====
-- Reading and writing whole files by their names: `read_file(const char*, RawByteContainer&,
-- error_code&)` of include/asioext/impl/read_file.hpp, `write_file(const char*, const
-- ConstBufferSequence&, error_code&)` of include/asioext/impl/write_file.hpp and `open` of
-- include/asioext/impl/open.cpp, on POSIX systems.
--
-- What `::open` answers is a function of the arguments that it is given, a row of answers as in Posix;
-- what `fstat`, `asio::read` and `asio::write` do with a descriptor are parameters. The owner of the
-- descriptor closes it at the end of the function, but not where the program ends before.
use asio_extensions.Prelude.{
  ℕ, ◌≡◌, ◌≢◌, ◌⊎◌, inl, inr, refl, ◌∙◌, ap, List, [], ◌∷◌, ◌++◌, Option, none, some, if◌then◌else◌,
  Bytes,
}
use asio_extensions.Posix.{Answer, returns, fails, Code, no_error, eof, system}
use asio_extensions.Posix.Retry.{interrupted}
use asio_extensions.Posix.Open.{Native, Opened, open_file, held, opened_by, opened_as, open_file_as}
use asio_extensions.Posix.Args.{PosixArgs, no_args, posix_open_args}
use asio_extensions.Handles.{ok}
use asio_extensions.LinearBuffer.{Allocator, Buffer, Exception}
use asio_extensions.ReadFile.{ReadCode, Result, finished, terminated, read_file}

-- what a call leaves: its result, and the descriptors that were closed
pub record Ended (R : Type 0) : Type 0 where
  pub result : R
  pub closed : List ℕ

-- `open_flags::access_read | open_flags::open_existing`, and `access_write | create_always`; the
-- permissions are `create_default`
abbrev pub read_args : Native → PosixArgs
read_args native = posix_open_args native [] no_args 17 0x1b6 0

abbrev pub write_args : Native → PosixArgs
write_args native = posix_open_args native [] no_args 10 0x1b6 0

abbrev pub read_code : Code → ReadCode
read_code no_error = ReadCode.no_error
read_code eof = ReadCode.eof
read_code (system e) = ReadCode.system e

-- the destructor of the owner, which a program that ends does not come to
abbrev pub closed_after : Result → Option ℕ → List ℕ
closed_after (finished b ec) fd = held fd
closed_after (terminated e) fd = []

module _ (eintr : ℕ) (native : Native) (open_call : PosixArgs → List Answer) where
  -- `open`: the attributes are none, so that `fchflags` is not called
  abbrev pub open_by_name : PosixArgs → Option Opened
  open_by_name args = open_file eintr 0 (returns 0) (open_call args)

  module _ (al : Allocator) (fstat : Option ℕ → Answer)
      (read : Option ℕ → ℕ → Bytes × ReadCode) where
    abbrev pub read_opened : Opened → Buffer → Ended Result
    read_opened o b =
        let r =
          if ok o.code
          then read_file al (fstat o.fd) (read o.fd) b
          else finished b (read_code o.code) in
        record { result = r; closed = o.closed ++ closed_after r o.fd }

    pub read_file_by_name : Buffer → Option (Ended Result)
    read_file_by_name b = elim (open_by_name (read_args native)) [
      | none ↦ none
      | some o ↦ some (read_opened o b)
    ]

  module _ (write : Option ℕ → Code) where
    abbrev pub write_opened : Opened → Ended Code
    write_opened o = record {
      result = if ok o.code then write o.fd else o.code;
      closed = o.closed ++ held o.fd;
    }

    pub write_file_by_name : Option (Ended Code)
    write_file_by_name = elim (open_by_name (write_args native)) [
      | none ↦ none
      | some o ↦ some (write_opened o)
    ]

-- what reading and writing give for an answer of `::open`
abbrev pub read_result :
    Allocator → (Option ℕ → Answer) → (Option ℕ → ℕ → Bytes × ReadCode) → Buffer → Answer → Result
read_result al fstat read b (returns fd) = read_file al (fstat (some fd)) (read (some fd)) b
read_result al fstat read b (fails e) = finished b (ReadCode.system e)

abbrev pub write_result : (Option ℕ → Code) → Answer → Code
write_result write (returns fd) = write (some fd)
write_result write (fails e) = system e

closed_or_ended :
    (r : Result) (fd : ℕ)
    → (closed_after r (some fd) ≡ fd ∷ []) ⊎ ((x : Exception) × (r ≡ terminated x))
closed_or_ended (finished b ec) fd = inl refl
closed_or_ended (terminated x) fd = inr (x, refl)

-- However often `::open` is interrupted, reading a file by its name comes to an end, and gives what
-- reading from the descriptor gives, or the error of `::open` and the buffer as it was. What was opened
-- is closed once by then, and nothing else, unless the program ended.
pub read_file_by_name_lem :
    (eintr : ℕ) (native : Native) (open_call : PosixArgs → List Answer) (al : Allocator)
    (fstat : Option ℕ → Answer) (read : Option ℕ → ℕ → Bytes × ReadCode) (b : Buffer) (k : ℕ)
    (a : Answer) (rest : List Answer)
    → open_call (read_args native) ≡ interrupted eintr k ++ (a ∷ rest)
    → a ≢ fails eintr
    → (e : Ended Result) × (read_file_by_name eintr native open_call al fstat read b ≡ some e)
      × (e.result ≡ read_result al fstat read b a)
      × ((e.closed ≡ opened_by a) ⊎ ((x : Exception) × (e.result ≡ terminated x)))
unfolding read_file_by_name
read_file_by_name_lem eintr native open_call al fstat read b k (returns fd) rest answers h =
    let opens =
      ap (open_file eintr 0 (returns 0)) answers ∙ open_file_as eintr k (returns fd) rest h in
    (
      read_opened eintr native open_call al fstat read (opened_as (returns fd)) b,
      rw (read_file_by_name, opens) refl,
      refl,
      closed_or_ended (read_file al (fstat (some fd)) (read (some fd)) b) fd,
    )
read_file_by_name_lem eintr native open_call al fstat read b k (fails e) rest answers h =
    let opens =
      ap (open_file eintr 0 (returns 0)) answers ∙ open_file_as eintr k (fails e) rest h in
    (
      read_opened eintr native open_call al fstat read (opened_as (fails e)) b,
      rw (read_file_by_name, opens) refl,
      refl,
      inl refl,
    )

-- The same of writing a file by its name: it gives the code of the write, or the error of `::open`
-- without a write, and what was opened is closed once.
pub write_file_by_name_lem :
    (eintr : ℕ) (native : Native) (open_call : PosixArgs → List Answer) (write : Option ℕ → Code)
    (k : ℕ) (a : Answer) (rest : List Answer)
    → open_call (write_args native) ≡ interrupted eintr k ++ (a ∷ rest)
    → a ≢ fails eintr
    → (e : Ended Code) × (write_file_by_name eintr native open_call write ≡ some e)
      × (e.result ≡ write_result write a)
      × (e.closed ≡ opened_by a)
unfolding write_file_by_name
write_file_by_name_lem eintr native open_call write k (returns fd) rest answers h =
    let opens =
      ap (open_file eintr 0 (returns 0)) answers ∙ open_file_as eintr k (returns fd) rest h in
    (
      write_opened eintr native open_call write (opened_as (returns fd)),
      rw (write_file_by_name, opens) refl,
      refl,
      refl,
    )
write_file_by_name_lem eintr native open_call write k (fails e) rest answers h =
    let opens =
      ap (open_file eintr 0 (returns 0)) answers ∙ open_file_as eintr k (fails e) rest h in
    (
      write_opened eintr native open_call write (opened_as (fails e)),
      rw (write_file_by_name, opens) refl,
      refl,
      refl,
    )
