-- ===== src/Handles.antt =====
-- Owners of open files: include/asioext/impl/unique_file_handle.cpp, with the `close` and `clear` of
-- include/asioext/impl/file_handle_posix.cpp and `close` of
-- include/asioext/detail/impl/posix_file_ops.cpp.
--
-- The objects are places in a store, so two arguments can be one object. Opened files are numbered
-- in the order of their opening, where the system numbers them anew after a close; `none` is -1.
-- What `::close` answers for a file is a parameter. A constructor ends the object that was there.
pub mod Owned
pub mod Leak
use asio_extensions.Prelude.{
  ℕ, zero, suc, ◌+◌, Bool, true, false, List, [], ◌∷◌, Option, none, some, ◌==◌, if◌then◌else◌, put,
}
use asio_extensions.Posix.{Answer, returns, fails, Code, no_error, eof, system}

-- `closes` and `released` count, for each file, the calls of `::close` and the times it was handed
-- to the caller.
pub record Files : Type 0 where
  pub handles : ℕ → Option ℕ
  pub next : ℕ
  pub closes : ℕ → ℕ
  pub released : ℕ → ℕ

abbrev pub no_files : Files
no_files = record { handles = λ i. none; next = 0; closes = λ f. 0; released = λ f. 0 }

abbrev pub set : Files → ℕ → Option ℕ → Files
set w i h = record {
  handles = put w.handles i h;
  next = w.next;
  closes = w.closes;
  released = w.released;
}

-- a file that `open` opens, not yet in any object
abbrev pub opened : Files → Files
opened w = record {
  handles = w.handles;
  next = suc w.next;
  closes = w.closes;
  released = w.released;
}

abbrev pub clear : ℕ → Files → Files
clear i w = set w i none

-- `if (!ec)`
abbrev pub ok : Code → Bool
ok no_error = true
ok eof = false
ok (system e) = false

-- Calls on the objects at the given places. A handle given to a constructor or to `reset` is of a
-- file just opened; a place is not constructed from itself.
pub data Call : Type 0 where
  constructs destructs closes_it releases resets : ℕ → Call
  move_constructs move_assigns : ℕ → ℕ → Call

module _ (sys : ℕ → Answer) where
  abbrev pub posix_close : ℕ → Code
  posix_close fd = elim (sys fd) [ returns r ↦ no_error | fails e ↦ system e ]

  -- `file_handle::close(ec)` at a place that holds the given handle
  abbrev pub close_held : ℕ → Option ℕ → Files → Files × Code
  close_held i none w = (w, no_error)
  close_held i (some fd) w = (
    record {
      handles = put w.handles i none;
      next = w.next;
      closes = put w.closes fd (suc (w.closes fd));
      released = w.released;
    },
    posix_close fd,
  )

  abbrev pub close : ℕ → Files → Files × Code
  close i w = close_held i (w.handles i) w

  abbrev pub destruct : ℕ → Files → Files
  destruct i w = (close i w).0

  abbrev pub move_construct : ℕ → ℕ → Files → Files
  move_construct i k w = clear k (set w i (w.handles k))

  -- The `close` in it throws, and leaves the other handle alone.
  abbrev pub move_assign : ℕ → ℕ → Files → Files × Code
  move_assign i k w =
      let (w', ec) = close i w in
      if ok ec then (clear k (set w' i (w'.handles k)), no_error) else (w', ec)

  -- The handle returned is the caller's.
  abbrev pub release_held : ℕ → Option ℕ → Files → Files
  release_held i none w = clear i w
  release_held i (some fd) w = record {
    handles = put w.handles i none;
    next = w.next;
    closes = w.closes;
    released = put w.released fd (suc (w.released fd));
  }

  abbrev pub release : ℕ → Files → Files
  release i w = release_held i (w.handles i) w

  abbrev pub reset : ℕ → Option ℕ → Files → Files × Code
  reset i h w = let (w', ec) = close i w in if ok ec then (set w' i h, ec) else (w', ec)

  unfoldable pub call : Call → Files → Files
  call (constructs i) w = set (opened (destruct i w)) i (some w.next)
  call (destructs i) w = destruct i w
  call (closes_it i) w = (close i w).0
  call (releases i) w = release i w
  call (resets i) w = (reset i (some w.next) (opened w)).0
  call (move_constructs i k) w = if i == k then w else move_construct i k (destruct i w)
  call (move_assigns i k) w = (move_assign i k w).0

  unfoldable pub run : List Call → Files → Files
  unfolding call
  run [] w = w
  run (c ∷ cs) w = run cs (call c w)
