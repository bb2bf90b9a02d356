-- ===== src/Service.antt =====
-- The file service: include/asioext/impl/thread_pool_file_service.cpp, with the operations that
-- include/asioext/impl/thread_pool_file_service.hpp posts to the pool.
--
-- Implementations and services are numbered. The fields of the implementations are functions of their
-- number, a null pointer is `none`, and so is a handle of -1; `closed` are the descriptors that were
-- closed, the last one first. What `::close` answers for a descriptor is a parameter; the code that
-- goes with a state is that of the exception which `file_handle::close` throws, if any, and ends
-- the function. Each function that locks the mutex is one step.
pub mod Links
pub mod Lists
pub mod Members
pub mod Shutdown
pub mod Aborted
use asio_extensions.Prelude.{
  ℕ, zero, suc, Bool, true, false, not, List, [], ◌∷◌, Option, none, some, ◌==◌, if◌then◌else◌, put,
}
use asio_extensions.Posix.{Answer, returns, fails, Code, no_error, system}
use asio_extensions.Handles.{ok}
use asio_extensions.Token.{Shared, Blocks}
use asio_extensions.Token

pub record State : Type 0 where
  pub handle : ℕ → Option ℕ
  pub source : ℕ → Shared
  pub next : ℕ → Option ℕ
  pub prev : ℕ → Option ℕ
  pub impl_list : ℕ → Option ℕ
  pub blocks : Blocks
  pub closed : List ℕ

-- `ptr == &impl`
abbrev pub is_at : Option ℕ → ℕ → Bool
is_at none i = false
is_at (some j) i = i == j

-- `if (ptr) ptr->field = a`
abbrev pub put_at : {A : Type 0} → (ℕ → A) → Option ℕ → A → ℕ → A
put_at f none a = f
put_at f (some p) a = put f p a

-- at the head of the list of a service
abbrev pub link : ℕ → ℕ → State → State
link s i w = record {
  handle = w.handle;
  source = w.source;
  next = put w.next i (w.impl_list s);
  prev = put_at (put w.prev i none) (w.impl_list s) (some i);
  impl_list = put w.impl_list s (some i);
  blocks = w.blocks;
  closed = w.closed;
}

-- out of the list of a service
abbrev pub unlink : ℕ → ℕ → State → State
unlink s i w =
    let next = put_at w.next (w.prev i) (w.next i) in
    let prev = put_at w.prev (next i) (w.prev i) in
    record {
      handle = w.handle;
      source = w.source;
      next = put next i none;
      prev = put prev i none;
      impl_list = put w.impl_list s (if is_at (w.impl_list s) i then w.next i else w.impl_list s);
      blocks = w.blocks;
      closed = w.closed;
    }

abbrev pub set_handle : ℕ → Option ℕ → State → State
set_handle i h w = record {
  handle = put w.handle i h;
  source = w.source;
  next = w.next;
  prev = w.prev;
  impl_list = w.impl_list;
  blocks = w.blocks;
  closed = w.closed;
}

-- the source of an implementation, with the control blocks
abbrev pub set_source : ℕ → Shared × Blocks → State → State
set_source i (s, b) w = record {
  handle = w.handle;
  source = put w.source i s;
  next = w.next;
  prev = w.prev;
  impl_list = w.impl_list;
  blocks = b;
  closed = w.closed;
}

abbrev pub log_close : ℕ → State → State
log_close fd w = record {
  handle = w.handle;
  source = w.source;
  next = w.next;
  prev = w.prev;
  impl_list = w.impl_list;
  blocks = w.blocks;
  closed = fd ∷ w.closed;
}

abbrev pub close_code : Answer → Code
close_code (returns r) = no_error
close_code (fails e) = system e

-- What a call leaves in `ec`, or passes to a handler; `code` is what the system says.
pub data Outcome : Type 0 where
  code : Code → Outcome
  already_open bad_descriptor operation_aborted : Outcome

-- The calls on implementations. The first numbers of the first four are those of services.
pub data Call : Type 0 where
  constructs destroys : ℕ → ℕ → Call
  move_constructs : ℕ → ℕ → ℕ → Call
  move_assigns : ℕ → ℕ → ℕ → ℕ → Call
  opens : ℕ → Option ℕ × Code → Call
  assigns : ℕ → Option ℕ → Call
  closes : ℕ → Call
  cancels : ℕ → Outcome → Call

-- the rest of a function, unless `close` has thrown
abbrev pub unless_thrown : (State → State) → State × Code → State × Code
unless_thrown rest (w, ec) = if ok ec then (rest w, ec) else (w, ec)

module _ (sys : ℕ → Answer) where
  -- the handle is gone before `close` throws
  abbrev pub close_open : ℕ → Option ℕ → State → State × Code
  close_open i none w = (w, no_error)
  close_open i (some fd) w = (
    log_close fd (set_handle i none (set_source i (Token.destroy (w.source i) w.blocks) w)),
    close_code (sys fd),
  )

  pub close_for_destruction : ℕ → State → State × Code
  close_for_destruction i w = close_open i (w.handle i) w

  abbrev pub construct : ℕ → ℕ → State → State
  construct s i w = link s i (set_source i (Token.reset (w.source i) w.blocks) w)

  -- `handle_ = other.handle_; other.handle_.clear()`
  abbrev pub take_handle : ℕ → ℕ → State → State
  take_handle i k w = set_handle k none (set_handle i (w.handle k) w)

  abbrev pub move_construct : ℕ → ℕ → ℕ → State → State
  move_construct s i k w =
      let (mine, left, b) = Token.move_assign (w.source i) (w.source k) w.blocks in
      link s i (set_source i (mine, b) (set_source k (left, w.blocks) (take_handle i k w)))

  abbrev pub move_rest : ℕ → ℕ → ℕ → ℕ → State → State
  move_rest this other i k w =
      if this == other then take_handle i k w else link other i (take_handle i k (unlink this i w))

  pub move_assign : ℕ → ℕ → ℕ → ℕ → State → State × Code
  unfolding close_for_destruction
  move_assign this other i k w =
      unless_thrown (move_rest this other i k) (close_for_destruction i w)

  pub destroy : ℕ → ℕ → State → State × Code
  unfolding close_for_destruction
  destroy s i w = unless_thrown (unlink s i) (close_for_destruction i w)

  -- the loop of `shutdown_service`, where `none` is out of fuel
  pub shutdown_loop : ℕ → Option ℕ → State → Option (State × Code)
  unfolding close_for_destruction
  shutdown_loop n none w = some (w, no_error)
  shutdown_loop zero (some i) w = none
  shutdown_loop (suc n) (some i) w =
      let (w', ec) = close_for_destruction i w in
      let rest = shutdown_loop n (w'.next i) w' in if ok ec then rest else some (w', ec)

  abbrev pub shutdown_service : ℕ → ℕ → State → Option (State × Code)
  shutdown_service fuel s w = shutdown_loop fuel (w.impl_list s) w

  -- `opened` is what `asioext::open` gives, -1 where it fails
  abbrev pub open_at : ℕ → Option ℕ × Code → State → State × Outcome
  open_at i (opened, ec) w = elim (w.handle i) [
    | some fd ↦ (w, already_open)
    | none ↦ (set_handle i opened w, code ec)
  ]

  abbrev pub assign : ℕ → Option ℕ → State → State × Outcome
  assign i given w = elim (w.handle i) [
    | some fd ↦ (w, already_open)
    | none ↦ (set_handle i given w, code no_error)
  ]

  abbrev pub close : ℕ → State → State × Outcome
  close i w = elim (w.handle i) [
    | none ↦ (w, code no_error)
    | some fd ↦ (log_close fd (set_handle i none w), code (close_code (sys fd)))
  ]

  -- `ec` is an argument: the last branch leaves it alone.
  abbrev pub cancel : ℕ → Outcome → State → State × Outcome
  cancel i ec w = elim (w.handle i) [
    | none ↦ (w, bad_descriptor)
    | some fd ↦ (set_source i (Token.cancel (w.source i) w.blocks) w, ec)
  ]

  -- An implementation is not constructed from itself.
  pub step : Call → State → State
  unfolding move_assign destroy
  step (constructs s i) w = construct s i w
  step (move_constructs s i k) w = if i == k then w else move_construct s i k w
  step (move_assigns this other i k) w = (move_assign this other i k w).0
  step (destroys s i) w = (destroy s i w).0
  step (opens i given) w = (open_at i given w).0
  step (assigns i given) w = (assign i given w).0
  step (closes i) w = (close i w).0
  step (cancels i ec) w = (cancel i ec w).0

  unfoldable pub run : List Call → State → State
  unfolding step
  run [] w = w
  run (c ∷ cs) w = run cs (step c w)

-- before any implementation
abbrev pub nothing : State
nothing = record {
  handle = λ i. none;
  source = λ i. Token.empty;
  next = λ i. none;
  prev = λ i. none;
  impl_list = λ s. none;
  blocks = record { next = 0; uses = λ b. 0 };
  closed = [];
}

-- an operation that was posted to the pool, with its copy of the handle
pub record Pending : Type 0 where
  pub cancel_token : Option ℕ
  pub target : Option ℕ

abbrev pub initiate : ℕ → State → Pending
initiate i w = record { cancel_token = Token.token (w.source i); target = w.handle i }

-- The operation when a thread of the pool comes to it. `impl` is the transfer.
abbrev pub perform : (Option ℕ → ℕ × Code) → Pending → State → Outcome × ℕ
perform impl op w =
    if Token.cancelled op.cancel_token w.blocks
    then (operation_aborted, 0)
    else let (n, ec) = impl op.target in (code ec, n)
