-- ===== src/ThreadGroup.antt =====
-- The threads of a pool: include/asioext/detail/thread_group.hpp.
--
-- The nodes of the list are numbered in the order of their construction. A thread that is started runs
-- by itself, and `join` on it returns once; neither starting nor joining a thread throws. The loop of
-- `join` has as much fuel as there were threads.
pub mod Joined
use asio_extensions.Prelude.{ℕ, zero, suc, List, [], ◌∷◌, Option, none, some, put}

-- `last_` and the `prev` of each node; how often each thread was joined and each node deleted
pub record Threads : Type 0 where
  pub prev : ℕ → Option ℕ
  pub last : Option ℕ
  pub started : ℕ
  pub joined : ℕ → ℕ
  pub deleted : ℕ → ℕ

abbrev pub no_threads : Threads
no_threads = record {
  prev = λ i. none;
  last = none;
  started = 0;
  joined = λ i. 0;
  deleted = λ i. 0;
}

abbrev pub create_thread : Threads → Threads
create_thread w = record {
  prev = put w.prev w.started w.last;
  last = some w.started;
  started = suc w.started;
  joined = w.joined;
  deleted = w.deleted;
}

pub create_threads : ℕ → Threads → Threads
create_threads zero w = w
create_threads (suc num_threads) w = create_threads num_threads (create_thread w)

-- one pass of the loop of `join`
abbrev pub join_one : ℕ → Threads → Threads
join_one cur w = record {
  prev = w.prev;
  last = w.prev cur;
  started = w.started;
  joined = put w.joined cur (suc (w.joined cur));
  deleted = put w.deleted cur (suc (w.deleted cur));
}

-- `while (last_)`; `none` where the fuel does not last
pub join_while : ℕ → Option ℕ → Threads → Option Threads
join_while fuel none w = some w
join_while zero (some cur) w = none
join_while (suc fuel) (some cur) w = join_while fuel (w.prev cur) (join_one cur w)

-- `join`, and the destructor
abbrev pub join : Threads → Option Threads
join w = join_while w.started w.last w

pub data Task : Type 0 where
  starts : Task
  starts_many : ℕ → Task
  joins : Task

abbrev pub perform_task : Task → Threads → Option Threads
perform_task starts w = some (create_thread w)
perform_task (starts_many n) w = some (create_threads n w)
perform_task joins w = join w

pub perform_tasks : List Task → Threads → Option Threads
perform_tasks [] w = some w
perform_tasks (t ∷ tasks) w = elim (perform_task t w) [
  | none ↦ none
  | some w' ↦ perform_tasks tasks w'
]
