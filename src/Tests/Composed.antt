-- ===== src/Tests/Composed.antt =====
-- Theorems on composed operations and on `connect` at short runs.
use asio_extensions.Prelude.{
  ℕ, suc, ◌+◌, ◌-◌, ◌≤◌, ◌≡◌, ◌≢◌, ◌⊎◌, refl, List, [], ◌∷◌, ◌++◌, Option, none, some, ◌==◌, put,
  if◌then◌else◌, Bool-cases, inl, inr, ==_iff, arith,
}
use asio_extensions.Composed.{Guards, Reply, waits, completes, binds, Finished, async_compose}
use asio_extensions.Composed.Work.{GuardLaws, one_of, occurrences}
use asio_extensions.Composed.Run.{no_more, once_more, composed_run}
use asio_extensions.Connect.{Network, attempt, connect}
use asio_extensions.Connect.Attempts.{Failed, connect_result}

-- Guards over counters: the work outstanding for each executor.
abbrev counting_finish : Option ℕ → (ℕ → ℕ) → Option ℕ × (ℕ → ℕ)
counting_finish none w = (none, w)
counting_finish (some e) w = (none, put w e (w e - 1))

abbrev counting : Guards
counting = record {
  Guard = Option ℕ;
  World = ℕ → ℕ;
  start = λ e w. (some e, put w e (suc (w e)));
  finish = counting_finish;
}

start_counts : (e x : ℕ) (w : ℕ → ℕ) → put w e (suc (w e)) x ≡ one_of (some e) x + w x
start_counts e x w = elim (Bool-cases (e == x)) [
  | inl same ↦ let at_e = (==_iff e x).0 same in ground arith
  | inr other ↦ ground arith
]

finish_counts :
    (g : Option ℕ) (w : ℕ → ℕ)
    → ((x : ℕ) → one_of g x ≤ w x)
    → (x : ℕ) → w x ≡ one_of g x + (counting_finish g w).1 x
finish_counts none w owed x = omega arith
finish_counts (some e) w owed x = elim (Bool-cases (e == x)) [
  | inl same ↦ let at_e = (==_iff e x).0 same in let h = owed x in ground arith
  | inr other ↦ ground arith
]

finish_none : (g : Option ℕ) (w : ℕ → ℕ) → (counting_finish g w).0 ≡ none
finish_none none w = refl
finish_none (some e) w = refl

abbrev counting_laws : GuardLaws counting
counting_laws = record {
  holds = λ g. g;
  outstanding = λ w. w;
  start_holds = λ e w. refl;
  start_counts = start_counts;
  finish_holds = finish_none;
  finish_counts = finish_counts;
}

-- An operation that waits at 0, completes at 1 and posts its handler at any other number.
abbrev waiting : ℕ → ℕ → (ℕ → ℕ) → Reply ℕ ℕ × (ℕ → ℕ)
waiting i m w =
    if m == 0 then (waits (suc i), w) else if m == 1 then (completes i, w) else (binds i, w)

waiting_quiet : (i m : ℕ) (w : ℕ → ℕ) (x : ℕ) → (waiting i m w).1 x ≡ w x
waiting_quiet i m w x = ground arith

abbrev idle : ℕ → ℕ
idle x = 0

composed_run_example :
    (o : Finished ℕ (ℕ → ℕ)) × (async_compose counting waiting
        (λ a w. w)
        (3 ∷ 3 ∷ [])
        0
        ((0 ∷ 0 ∷ []) ++ (1 ∷ []))
        idle
      ≡ some o)
    × (o.args ≡ 2)
    × ((x : ℕ) → (o.at_handler x ≡ occurrences (3 ∷ 3 ∷ []) x + 0) × (o.in_the_end x ≡ 0))
    × (o.state ≡ 2)
composed_run_example =
    composed_run counting ℕ ℕ ℕ waiting (λ a w. w) counting_laws waiting_quiet (λ a w x. refl)
      (3 ∷ 3 ∷ []) 0 2 (0 ∷ 0 ∷ []) 1 [] idle _ _ 2 (once_more refl (once_more refl no_more)) refl

-- A name with three endpoints, of which 8 answers; the state counts the attempts.
abbrev small_net : Network
small_net = record {
  State = ℕ;
  resolve = λ s. ((6 ∷ 8 ∷ 9 ∷ [], 0), s);
  close = λ s. (0, s);
  connect_to = λ e s. if e == 8 then (0, suc s) else (111, suc s);
}

connect_result_example :
    ((◌≢◌ {A = ℕ} 0 0) × ((connect small_net 1 0).0 ≡ 0) × ((connect small_net 1 0).1 ≡ 0))
    ⊎ ((◌≡◌ {A = ℕ} 0 0)
        × (((before : List ℕ) × (entry : ℕ) × (after : List ℕ) × (ec'' : ℕ) × (s'' : ℕ) × (6 ∷ 8 ∷ 9
                  ∷ []
                ≡ before ++ (entry ∷ after))
              × Failed small_net before 1 0 ec'' s''
              × (attempt small_net entry s'' ≡ (0, (connect small_net 1 0).1))
              × ((connect small_net 1 0).0 ≡ 0))
            ⊎ (Failed small_net
                  (6 ∷ 8 ∷ 9 ∷ [])
                  1
                  0
                  (connect small_net 1 0).0
                  (connect small_net 1 0).1
                × ((connect small_net 1 0).0 ≢ 0))))
connect_result_example = connect_result small_net 1 0 (λ e. absurd (omega arith))
