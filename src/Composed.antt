-- ===== src/Composed.antt =====
-- Composed asynchronous operations: include/asioext/compose.hpp, include/asioext/work.hpp,
-- include/asioext/bind_handler.hpp and include/asioext/detail/bound_handler.hpp.
--
-- `asio::executor_work_guard` is not code of the repository: its constructor and its `reset` are
-- parameters. An implementation is a function of its state, of what it is invoked with and of the
-- world; it says whether it starts another operation and waits, or how it completes. Each
-- asynchronous operation that it starts moves the composed operation along and invokes it with one
-- message.
pub mod Work
pub mod Run
use asio_extensions.Prelude.{
  ℕ, zero, suc, Bool, true, false, ◌||◌, List, [], ◌∷◌, Option, none, some, ltb, if◌then◌else◌,
}

-- what is used of the guards
pub record Guards : Type 1 where
  pub Guard : Type 0
  pub World : Type 0
  pub start : ℕ → World → Guard × World
  pub finish : Guard → World → Guard × World

module _ (guards : Guards) where
  -- `make_work_tuple`: one guard for each executor
  pub make_work_tuple : List ℕ → guards.World → List guards.Guard × guards.World
  make_work_tuple [] w = ([], w)
  make_work_tuple (head ∷ tail) w =
      let (g, w') = guards.start head w in let (gs, w'') = make_work_tuple tail w' in (g ∷ gs, w'')

  -- `work_tuple::reset`
  pub reset : List guards.Guard → guards.World → List guards.Guard × guards.World
  reset [] w = ([], w)
  reset (head ∷ tail) w =
      let (g, w') = guards.finish head w in let (gs, w'') = reset tail w' in (g ∷ gs, w'')

-- what an implementation does with the operation: it moves it into another one, calls `complete`, or
-- posts the `complete_to_bound_handler`
pub data Reply (State Args : Type 0) : Type 0 where
  waits : State → Reply State Args
  completes : Args → Reply State Args
  binds : Args → Reply State Args

-- the members `impl_`, `work_` and `state_`
pub record Operation (State Guard : Type 0) : Type 0 where
  pub impl : State
  pub work : List Guard
  pub state : ℕ

-- what is seen of an operation that came to an end: the arguments of its handler, the world in which
-- the handler is invoked, the world in the end, and `state_`
pub record Finished (Args World : Type 0) : Type 0 where
  pub args : Args
  pub at_handler : World
  pub in_the_end : World
  pub state : ℕ

-- `asio_handler_is_continuation`
abbrev pub is_continuation : {State Guard : Type 0} → Operation State Guard → Bool → Bool
is_continuation op of_handler = ltb 1 op.state || of_handler

module _ (guards : Guards) {State Args Message : Type 0}
    (implementation : State → Message → guards.World → Reply State Args × guards.World)
    (handler : Args → guards.World → guards.World) where
  -- `complete`: the operation dies behind it, and its guards with it
  abbrev pub complete :
      Args → Operation State guards.Guard → guards.World → Finished Args guards.World
  complete args op w =
      let (gs, w') = reset guards op.work (handler args w) in
      record { args = args; at_handler = w; in_the_end = (reset guards gs w').1; state = op.state }

  -- `complete_to_bound_handler` and `bound_handler::operator()`
  abbrev pub bound : Args → Operation State guards.Guard → guards.World → Finished Args guards.World
  bound args op w =
      let (gs, w') = reset guards op.work w in
      record {
        args = args;
        at_handler = w';
        in_the_end = (reset guards gs (handler args w')).1;
        state = op.state;
      }

  -- `++state_`, at most up to 2
  abbrev pub count : ℕ → ℕ
  count state = if ltb state 2 then suc state else state

  abbrev pub reply :
      Reply State Args
      → Operation State guards.Guard
      → guards.World
      → (Operation State guards.Guard → guards.World → Option (Finished Args guards.World))
      → Option (Finished Args guards.World)
  reply (waits i) op w next = next (record op { impl = i }) w
  reply (completes args) op w next = some (complete args op w)
  reply (binds args) op w next = some (bound args op w)

  -- `operator()` for each message; `none` where it still waits behind the last
  pub resume :
      List Message
      → Operation State guards.Guard
      → guards.World
      → Option (Finished Args guards.World)
  resume [] op w = none
  resume (m ∷ messages) op w =
      let op' : Operation State guards.Guard = record {
        impl = op.impl;
        work = op.work;
        state = count op.state;
      } in
      let (r, w') = implementation op'.impl m w in reply r op' w' (resume messages)

  -- `async_compose` as it is before Asio 1.24, with `initiate_composed_op`; the first message is
  -- the invocation without arguments
  unfoldable pub async_compose :
      List ℕ → State → List Message → guards.World → Option (Finished Args guards.World)
  unfolding resume
  async_compose executors impl messages w =
      let (gs, w') = make_work_tuple guards executors w in
      resume messages (record { impl = impl; work = gs; state = 0 }) w'
