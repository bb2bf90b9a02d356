-- ===== src/UniqueHandler.antt =====
-- Handlers that are invoked once: include/asioext/unique_handler.hpp and
-- include/asioext/impl/unique_handler.cpp.
--
-- The `unique_handler` objects are places in a store, so two arguments can be one object. A stored
-- handler and its storage have one number, given in the order of the allocations. Whether the handler's
-- allocator has room for a number is a parameter. An invocation is the last thing that `complete` does,
-- so what the handler itself calls are the next actions. Moving and destroying a handler does not
-- call back. A constructor ends the object that was there.
pub mod Owners
pub mod Once
use asio_extensions.Prelude.{
  ℕ, zero, suc, Bool, true, false, List, [], ◌∷◌, Option, none, some, ◌==◌, if◌then◌else◌, put,
}

-- `storage` is the pointer of each object. The other fields count, for each handler, the invocations,
-- the destructions without one and the deallocations of its storage, and the calls that threw.
pub record Handlers : Type 0 where
  pub storage : ℕ → Option ℕ
  pub fresh : ℕ
  pub invoked : ℕ → ℕ
  pub aborted : ℕ → ℕ
  pub freed : ℕ → ℕ
  pub thrown : ℕ

abbrev pub no_handlers : Handlers
no_handlers = record {
  storage = λ i. none;
  fresh = 0;
  invoked = λ b. 0;
  aborted = λ b. 0;
  freed = λ b. 0;
  thrown = 0;
}

abbrev pub point : ℕ → Option ℕ → Handlers → Handlers
point i o w = record {
  storage = put w.storage i o;
  fresh = w.fresh;
  invoked = w.invoked;
  aborted = w.aborted;
  freed = w.freed;
  thrown = w.thrown;
}

abbrev pub deallocate_operation : ℕ → Handlers → Handlers
deallocate_operation b w = record {
  storage = w.storage;
  fresh = w.fresh;
  invoked = w.invoked;
  aborted = w.aborted;
  freed = put w.freed b (suc (w.freed b));
  thrown = w.thrown;
}

-- The handler is moved out of its storage first, and dies with the call.
abbrev pub do_abort : ℕ → Handlers → Handlers
do_abort b w =
    let w' = deallocate_operation b w in
    record {
      storage = w'.storage;
      fresh = w'.fresh;
      invoked = w'.invoked;
      aborted = put w'.aborted b (suc (w'.aborted b));
      freed = w'.freed;
      thrown = w'.thrown;
    }

abbrev pub do_complete : ℕ → Handlers → Handlers
do_complete b w =
    let w' = deallocate_operation b w in
    record {
      storage = w'.storage;
      fresh = w'.fresh;
      invoked = put w'.invoked b (suc (w'.invoked b));
      aborted = w'.aborted;
      freed = w'.freed;
      thrown = w'.thrown;
    }

-- an exception: `bad_function_call`, or that of the allocator
abbrev pub throw : Handlers → Handlers
throw w = record {
  storage = w.storage;
  fresh = w.fresh;
  invoked = w.invoked;
  aborted = w.aborted;
  freed = w.freed;
  thrown = suc w.thrown;
}

-- the allocator is asked once more
abbrev pub asked : Handlers → Handlers
asked w = record {
  storage = w.storage;
  fresh = suc w.fresh;
  invoked = w.invoked;
  aborted = w.aborted;
  freed = w.freed;
  thrown = w.thrown;
}

-- `if (storage_) storage_->abort(storage_)`, which leaves the pointer
abbrev pub abort_held : Option ℕ → Handlers → Handlers
abort_held none w = w
abort_held (some b) w = do_abort b w

abbrev pub abort : ℕ → Handlers → Handlers
abort i w = abort_held (w.storage i) w

-- the pointer dies with the object
abbrev pub destroy : ℕ → Handlers → Handlers
destroy i w = point i none (abort i w)

abbrev pub move_construct : ℕ → ℕ → Handlers → Handlers
move_construct i k w = point k none (point i (w.storage k) w)

-- The other object's pointer is read after the abort.
abbrev pub move_assign : ℕ → ℕ → Handlers → Handlers
move_assign i k w = let w' = abort i w in let w'' = point i (w'.storage k) w' in point k none w''

abbrev pub complete_held : ℕ → Option ℕ → Handlers → Handlers
complete_held i none w = throw w
complete_held i (some b) w = do_complete b (point i none w)

abbrev pub complete : ℕ → Handlers → Handlers
complete i w = complete_held i (w.storage i) w

abbrev pub reset_held : ℕ → Option ℕ → Handlers → Handlers
reset_held i none w = w
reset_held i (some b) w = do_abort b (point i none w)

abbrev pub reset : ℕ → Handlers → Handlers
reset i w = reset_held i (w.storage i) w

-- `operator bool`
abbrev pub holds : ℕ → Handlers → Bool
holds i w = elim (w.storage i) [ none ↦ false | some b ↦ true ]

-- Calls on the objects at the given places. The handler of `stores` (a constructor) and `assigns` is
-- a new one; a place is not constructed from itself.
pub data Action : Type 0 where
  creates destroys stores assigns completes resets : ℕ → Action
  moves_to assigns_moved : ℕ → ℕ → Action

module _ (room : ℕ → Bool) where
  -- the constructor and the assignment from a handler; without room they throw
  abbrev pub store : ℕ → Handlers → Handlers
  store i w = if room w.fresh then point i (some w.fresh) (asked w) else throw (asked w)

  abbrev pub assign : ℕ → Handlers → Handlers
  assign i w = store i (abort i w)

  pub act : Action → Handlers → Handlers
  act (creates i) w = point i none (destroy i w)
  act (destroys i) w = destroy i w
  act (stores i) w = store i (destroy i w)
  act (assigns i) w = assign i w
  act (completes i) w = complete i w
  act (resets i) w = reset i w
  act (moves_to i k) w = if i == k then w else move_construct i k (destroy i w)
  act (assigns_moved i k) w = move_assign i k w

  unfoldable pub perform : List Action → Handlers → Handlers
  unfolding act
  perform [] w = w
  perform (a ∷ more) w = perform more (act a w)
