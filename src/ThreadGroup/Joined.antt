-- ===== src/ThreadGroup/Joined.antt =====
-- How often each thread is joined.
use asio_extensions.Prelude.{
  ℕ, zero, suc, ◌+◌, ◌<◌, ◌≤◌, ◌≡◌, refl, false, List, [], ◌∷◌, Option, none, some, ◌==◌, ==_iff,
  if◌then◌else◌, put, ltb, Bool-cases, inl, inr, arith,
}
use asio_extensions.ThreadGroup.{
  Threads, no_threads, create_thread, create_threads, join_one, join_while, join, Task, starts,
  starts_many, joins, perform_task, perform_tasks,
}

-- The nodes of the list, from the last one on, each started before the one in front of it.
abbrev pub Chain : (ℕ → Option ℕ) → Option ℕ → ℕ → List ℕ → Type 0
Chain prev last bound [] = last ≡ none
Chain prev last bound (i ∷ nodes) = (last ≡ some i) × (i < bound) × Chain prev (prev i) i nodes

abbrev pub among : ℕ → List ℕ → ℕ
among f [] = 0
among f (i ∷ nodes) = (if f == i then 1 else 0) + among f nodes

-- A thread is in the list and was not joined, or was joined once and its node deleted once.
pub record Group (w : Threads) : Type 0 where
  pub nodes : List ℕ
  pub chain : Chain w.prev w.last w.started nodes
  pub once : (f : ℕ) → f < w.started → among f nodes + w.joined f ≡ 1
  pub later : (f : ℕ) → w.started ≤ f → w.joined f ≡ 0
  pub same : (f : ℕ) → w.deleted f ≡ w.joined f

-- nodes below a new one do not see it
Chain-put :
    (prev : ℕ → Option ℕ) (last : Option ℕ) (bound new : ℕ) (o : Option ℕ) (nodes : List ℕ)
    → bound ≤ new
    → Chain prev last bound nodes
    → Chain (put prev new o) last bound nodes
Chain-put prev last bound new o [] h c = c
Chain-put prev last bound new o (i ∷ nodes) h (e, below, c) =
    let other : (i == new) ≡ false = ground arith in
    (e, below, rw other (Chain-put prev (prev i) i new o nodes (omega arith) c))

among_below :
    (prev : ℕ → Option ℕ) (last : Option ℕ) (bound f : ℕ) (nodes : List ℕ)
    → Chain prev last bound nodes
    → bound ≤ f
    → among f nodes ≡ 0
among_below prev last bound f [] c h = refl
among_below prev last bound f (i ∷ nodes) (e, below, c) h =
    let other : (f == i) ≡ false = ground arith in
    rw other (omega (arith, among_below prev (prev i) i f nodes c (omega arith)))

create_thread-Group : (w : Threads) → Group w → Group (create_thread w)
create_thread-Group w g =
    let n = w.started in
    let self = (==_iff n n).1 refl in
    record {
      nodes = n ∷ g.nodes;
      chain = (
        refl,
        omega arith,
        rw self (Chain-put w.prev w.last n n w.last g.nodes (omega arith) g.chain),
      );
      once = λ f h. elim (Bool-cases (f == n)) [
        | inl new ↦
            let e = (==_iff f n).0 new in
            let fresh = among_below w.prev w.last n f g.nodes g.chain (omega arith) in
            let unjoined = g.later f (omega arith) in rw new (omega arith)
        | inr old ↦ let o = g.once f (ground arith) in rw old (omega arith)
      ];
      later = λ f h. g.later f (omega arith);
      same = g.same;
    }

create_threads-Group : (n : ℕ) (w : Threads) → Group w → Group (create_threads n w)
unfolding create_threads
create_threads-Group zero w g = g
create_threads-Group (suc n) w g =
    create_threads-Group n (create_thread w) (create_thread-Group w g)

-- What the loop of `join` does to a chain.
join_while_run :
    (fuel bound : ℕ) (w : Threads) (nodes : List ℕ)
    → bound ≤ fuel
    → Chain w.prev w.last bound nodes
    → (w' : Threads) × (join_while fuel w.last w ≡ some w')
      × (w'.last ≡ none)
      × (w'.started ≡ w.started)
      × ((f : ℕ) → w'.joined f ≡ among f nodes + w.joined f)
      × ((f : ℕ) → w'.deleted f ≡ among f nodes + w.deleted f)
unfolding join_while
join_while_run fuel bound w [] enough c =
    (w, rw c refl, c, refl, λ f. omega arith, λ f. omega arith)
join_while_run zero bound w (i ∷ nodes) enough (e, below, c) = absurd (omega arith)
join_while_run (suc fuel) bound w (i ∷ nodes) enough (e, below, c) =
    let (w', runs, empty, same, joined, deleted) =
      join_while_run fuel i (join_one i w) nodes (omega arith) c in
    (
      w',
      rw e runs,
      empty,
      same,
      λ f. let j = joined f in ground arith,
      λ f. let d = deleted f in ground arith,
    )

join-Group :
    (w : Threads)
    → Group w
    → (w' : Threads) × (join w ≡ some w') × Group w' × (w'.last ≡ none) × (w'.started ≡ w.started)
join-Group w g =
    let (w', runs, empty, same, joined, deleted) =
      join_while_run w.started w.started w g.nodes (omega arith) g.chain in
    (
      w',
      runs,
      record {
        nodes = [];
        chain = empty;
        once = λ f h. let o = g.once f (omega arith) in let j = joined f in omega arith;
        later = λ f h.
            let o = g.later f (omega arith) in
            let j = joined f in
            let fresh = among_below w.prev w.last w.started f g.nodes g.chain (omega arith) in
            omega arith;
        same = λ f. let s = g.same f in let j = joined f in let d = deleted f in omega arith;
      },
      empty,
      same,
    )

perform_task-Group :
    (t : Task) (w : Threads) → Group w → (w' : Threads) × (perform_task t w ≡ some w') × Group w'
perform_task-Group starts w g = (create_thread w, refl, create_thread-Group w g)
perform_task-Group (starts_many n) w g = (create_threads n w, refl, create_threads-Group n w g)
perform_task-Group joins w g = let (w', runs, g', empty, same) = join-Group w g in (w', runs, g')

perform_tasks-Group :
    (tasks : List Task) (w : Threads)
    → Group w
    → (w' : Threads) × (perform_tasks tasks w ≡ some w') × Group w'
unfolding perform_tasks
perform_tasks-Group [] w g = (w, refl, g)
perform_tasks-Group (t ∷ tasks) w g =
    let (w1, first, g1) = perform_task-Group t w g in
    let (w2, rest, g2) = perform_tasks-Group tasks w1 g1 in (w2, rw (perform_tasks, first) rest, g2)

no_threads-Group : Group no_threads
no_threads-Group = record {
  nodes = [];
  chain = refl;
  once = λ f h. absurd (omega arith);
  later = λ f h. refl;
  same = λ f. refl;
}

chain_none :
    (prev : ℕ → Option ℕ) (last : Option ℕ) (bound f : ℕ) (nodes : List ℕ)
    → last ≡ none
    → Chain prev last bound nodes
    → among f nodes ≡ 0
chain_none prev last bound f [] e c = refl
chain_none prev last bound f (i ∷ nodes) e (e', below, c) = absurd (cc)

among-none : (f : ℕ) (w : Threads) (g : Group w) → w.last ≡ none → among f g.nodes ≡ 0
among-none f w g e = chain_none w.prev w.last w.started f g.nodes e g.chain

-- Whatever the calls, each of them comes to an end, and so does the destructor, after which every
-- thread that was started, and no other, was joined once and its node deleted once.
pub tasks_joined :
    (tasks : List Task)
    → (w : Threads) × (w' : Threads) × (perform_tasks tasks no_threads ≡ some w)
      × (join w ≡ some w')
      × (w'.last ≡ none)
      × ((f : ℕ) → w'.joined f ≡ (if ltb f w.started then 1 else 0))
      × ((f : ℕ) → w'.deleted f ≡ w'.joined f)
tasks_joined tasks =
    let (w, runs, g) = perform_tasks-Group tasks no_threads no_threads-Group in
    let (w', ends, g', empty, same) = join-Group w g in
    (
      w,
      w',
      runs,
      ends,
      empty,
      λ f. elim (Bool-cases (ltb f w.started)) [
        | inl below ↦
            let o = g'.once f (ground arith) in
            let c = among-none f w' g' empty in rw below (omega arith)
        | inr above ↦ rw above (g'.later f (ground arith))
      ],
      g'.same,
    )
