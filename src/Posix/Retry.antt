-- ===== src/Posix/Retry.antt =====
-- What the repeated calls give.
use asio_extensions.Prelude.{
  ℕ, zero, suc, ◌+◌, ◌≡◌, ◌≢◌, refl, ◌∙◌, ap, true, false, List, [], ◌∷◌, ◌++◌, some, ◌==◌, ==_iff,
  if◌then◌else◌, replicate, Bool-cases, inl, inr, arith,
}
use asio_extensions.Posix.{
  Answer, returns, fails, no_error, eof, system, Transfer, at_end, at_end_of, read_loop, write_loop,
  readv, preadv, pread, writev, pwritev, pwrite,
}

-- the bytes that a list of buffers has room for
abbrev pub total : List ℕ → ℕ
total [] = 0
total (len ∷ lens) = len + total lens

-- the end of a file shows only where something was asked for
abbrev pub read_answer : ℕ → Answer → Transfer
read_answer room (returns zero) = if room == 0 then (0, no_error) else (0, eof)
read_answer room (returns (suc n)) = (suc n, no_error)
read_answer room (fails e) = (0, system e)

abbrev pub write_answer : Answer → Transfer
write_answer (returns n) = (n, no_error)
write_answer (fails e) = (0, system e)

-- `k` interrupted calls
abbrev pub interrupted : ℕ → ℕ → List Answer
interrupted eintr k = replicate k (fails eintr)

at_end_lem : (bufs : List ℕ) → at_end bufs ≡ at_end_of (total bufs)
at_end_lem [] = refl
at_end_lem (zero ∷ lens) = at_end_lem lens ∙ ap at_end_of (omega arith)
at_end_lem (suc n ∷ lens) =
    let room : (suc n + total lens == 0) ≡ false = ground arith in
    let some_room : (suc n == 0) ≡ false = ground arith in rw (room, some_room) refl

pub not_again : (eintr e : ℕ) → fails e ≢ fails eintr → (e == eintr) ≡ false
not_again eintr e h = elim (Bool-cases (e == eintr)) [
  | inl same ↦ absurd (h (ap fails ((==_iff e eintr).0 same)))
  | inr other ↦ other
]

pub same_again : (eintr : ℕ) → (eintr == eintr) ≡ true
same_again eintr = (==_iff eintr eintr).1 refl

read_loop_run :
    (eintr room k : ℕ) (a : Answer) (rest : List Answer)
    → a ≢ fails eintr
    → read_loop eintr (at_end_of room) (interrupted eintr k ++ (a ∷ rest))
      ≡ some (read_answer room a)
unfolding read_loop
read_loop_run eintr room zero (returns zero) rest h = refl
read_loop_run eintr room zero (returns (suc n)) rest h = refl
read_loop_run eintr room zero (fails e) rest h = rw (not_again eintr e h) refl
read_loop_run eintr room (suc k) a rest h =
    rw (same_again eintr) (read_loop_run eintr room k a rest h)

write_loop_run :
    (eintr k : ℕ) (a : Answer) (rest : List Answer)
    → a ≢ fails eintr
    → write_loop eintr (interrupted eintr k ++ (a ∷ rest)) ≡ some (write_answer a)
unfolding write_loop
write_loop_run eintr zero (returns n) rest h = refl
write_loop_run eintr zero (fails e) rest h = rw (not_again eintr e h) refl
write_loop_run eintr (suc k) a rest h = rw (same_again eintr) (write_loop_run eintr k a rest h)

-- However often a read is interrupted, it ends with the first other answer: with the bytes read,
-- or the error; an answer of 0 bytes is the end of the file, unless the buffers have no room at
-- all. The three reads agree in this.
pub read_run :
    (eintr k : ℕ) (bufs : List ℕ) (a : Answer) (rest : List Answer)
    → a ≢ fails eintr
    → (readv eintr bufs (interrupted eintr k ++ (a ∷ rest)) ≡ some (read_answer (total bufs) a))
      × (preadv eintr bufs (interrupted eintr k ++ (a ∷ rest)) ≡ some (read_answer (total bufs) a))
      × (pread eintr (total bufs) (interrupted eintr k ++ (a ∷ rest))
          ≡ some (read_answer (total bufs) a))
read_run eintr k bufs a rest h =
    let run = read_loop_run eintr (total bufs) k a rest h in
    let vectored =
      ap (λ (t : Transfer). read_loop eintr t (interrupted eintr k ++ (a ∷ rest))) (at_end_lem bufs)
      ∙ run in
    (vectored, vectored, run)

-- However often a write is interrupted, it gives what the first other answer says: the bytes written,
-- or the error. The three writes agree in this.
pub write_run :
    (eintr k : ℕ) (a : Answer) (rest : List Answer)
    → a ≢ fails eintr
    → (writev eintr (interrupted eintr k ++ (a ∷ rest)) ≡ some (write_answer a))
      × (pwritev eintr (interrupted eintr k ++ (a ∷ rest)) ≡ some (write_answer a))
      × (pwrite eintr (interrupted eintr k ++ (a ∷ rest)) ≡ some (write_answer a))
write_run eintr k a rest h = let run = write_loop_run eintr k a rest h in (run, run, run)
