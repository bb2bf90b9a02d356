-- ===== src/Composed/Work.antt =====
-- What tuples of work guards hold.
use asio_extensions.Prelude.{
  ℕ, ◌+◌, ◌≤◌, ◌≡◌, refl, List, [], ◌∷◌, Option, none, some, ◌==◌, if◌then◌else◌, arith,
}
use asio_extensions.Composed.{Guards, make_work_tuple, reset}

-- 1 where a guard holds work of the executor
abbrev pub one_of : Option ℕ → ℕ → ℕ
one_of none x = 0
one_of (some e) x = if e == x then 1 else 0

-- What the documentation of `asio::executor_work_guard` says: a guard tells its executor of one
-- piece of outstanding work until it is reset, and a guard that was reset holds none. Work is ended
-- only where it is outstanding.
pub record GuardLaws (guards : Guards) : Type 0 where
  pub holds : guards.Guard → Option ℕ
  pub outstanding : guards.World → ℕ → ℕ
  pub start_holds : (e : ℕ) (w : guards.World) → holds (guards.start e w).0 ≡ some e
  pub start_counts :
      (e x : ℕ) (w : guards.World)
      → outstanding (guards.start e w).1 x ≡ one_of (some e) x + outstanding w x
  pub finish_holds : (g : guards.Guard) (w : guards.World) → holds (guards.finish g w).0 ≡ none
  pub finish_counts :
      (g : guards.Guard) (w : guards.World)
      → ((x : ℕ) → one_of (holds g) x ≤ outstanding w x)
      → (x : ℕ) → outstanding w x ≡ one_of (holds g) x + outstanding (guards.finish g w).1 x

-- how often an executor is in a list
abbrev pub occurrences : List ℕ → ℕ → ℕ
occurrences [] x = 0
occurrences (e ∷ es) x = one_of (some e) x + occurrences es x

module _ (guards : Guards) (laws : GuardLaws guards) where
  abbrev pub held : List guards.Guard → ℕ → ℕ
  held [] x = 0
  held (g ∷ gs) x = one_of (laws.holds g) x + held gs x

  pub make_work_tuple-held :
      (es : List ℕ) (x : ℕ) (w : guards.World)
      → (held (make_work_tuple guards es w).0 x ≡ occurrences es x)
        × (laws.outstanding (make_work_tuple guards es w).1 x
            ≡ occurrences es x + laws.outstanding w x)
  unfolding make_work_tuple
  make_work_tuple-held [] x w = (refl, omega arith)
  make_work_tuple-held (e ∷ es) x w =
      let (same, more) = make_work_tuple-held es x (guards.start e w).1 in
      let count = laws.start_counts e x w in (rw (laws.start_holds e w, same) refl, omega arith)

  pub reset-held :
      (gs : List guards.Guard) (w : guards.World)
      → ((x : ℕ) → held gs x ≤ laws.outstanding w x)
      → (x : ℕ)
      → (held (reset guards gs w).0 x ≡ 0)
        × (laws.outstanding w x ≡ held gs x + laws.outstanding (reset guards gs w).1 x)
  unfolding reset
  reset-held [] w owed x = (refl, omega arith)
  reset-held (g ∷ gs) w owed x =
      let count = laws.finish_counts g w (λ y. let h = owed y in omega arith) in
      let (zero_left, less) =
        reset-held gs (guards.finish g w).1 (λ y. let h = owed y in let c = count y in omega arith)
          x in
      let c = count x in (rw (laws.finish_holds g w) (omega arith), omega arith)
