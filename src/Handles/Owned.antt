-- ===== src/Handles/Owned.antt =====
-- Who holds an open file, and how often it is closed.
use asio_extensions.Prelude.{
  ℕ, ◌+◌, ◌<◌, ◌≤◌, ◌≡◌, ◌≢◌, ◌⊎◌, inl, inr, refl, ap, List, [], ◌∷◌, Option, none, some, ◌==◌,
  ==_iff, if◌then◌else◌, Bool-cases, Option-cases, arith,
}
use asio_extensions.Posix.{Answer}
use asio_extensions.Handles.{
  Files, no_files, set, opened, clear, ok, close, destruct, release, Call, constructs, destructs,
  closes_it, releases, resets, move_constructs, move_assigns, call, run,
}

-- A file that is held is neither closed nor handed out, and has no other holder; of a file that is
-- not, at most one of these has happened, once.
pub record Owned (w : Files) : Type 0 where
  pub held : (i f : ℕ) → w.handles i ≡ some f → (w.closes f + w.released f ≡ 0) × (f < w.next)
  pub sole : (i k f : ℕ) → w.handles i ≡ some f → w.handles k ≡ some f → i ≡ k
  pub once : (f : ℕ) → w.closes f + w.released f ≤ 1
  pub later : (f : ℕ) → w.next ≤ f → w.closes f + w.released f ≡ 0

-- A file that nobody has comes to an object that has none.
adopt-Owned :
    (i f : ℕ) (w : Files)
    → w.handles i ≡ none
    → f < w.next
    → w.closes f + w.released f ≡ 0
    → ((j : ℕ) → w.handles j ≢ some f)
    → Owned w
    → Owned (set w i (some f))
adopt-Owned i f w empty below zero_of free o = record {
  held = λ j g e. let h = o.held j g in ground arith;
  sole = λ j k g e e'. let s = o.sole j k g in let a = free j in let b = free k in ground arith;
  once = o.once;
  later = o.later;
}

opened-Owned : (w : Files) → Owned w → Owned (opened w)
opened-Owned w o = record {
  held = λ j g e. let h = o.held j g e in (h.0, omega arith);
  sole = o.sole;
  once = o.once;
  later = λ f l. o.later f (omega arith);
}

-- What another object has comes to an object that has none.
take-Owned :
    (i k : ℕ) (w : Files) → w.handles i ≡ none → Owned w → Owned (clear k (set w i (w.handles k)))
take-Owned i k w empty o = record {
  held = λ j g e. let h = o.held j g in let h' = o.held k g in ground arith;
  sole = λ j l g e e'.
      let s = o.sole j l g in let t = o.sole k l g in let u = o.sole j k g in ground arith;
  once = o.once;
  later = o.later;
}

clear-Owned : (i : ℕ) (w : Files) → Owned w → Owned (clear i w)
clear-Owned i w o = record {
  held = λ j g e. let h = o.held j g in ground arith;
  sole = λ j l g e e'. let s = o.sole j l g in ground arith;
  once = o.once;
  later = o.later;
}

module _ (sys : ℕ → Answer) where
  close-Owned : (i : ℕ) (w : Files) → Owned w → Owned (close sys i w).0
  close-Owned i w o = elim (Option-cases (w.handles i)) [
    | inl gone ↦ rw gone o
    | inr (fd, has) ↦ rw has (record {
      held = λ j f e.
          let h = o.held j f in let g = o.held i fd has in let s = o.sole j i f in ground arith;
      sole = λ j k f e g. let s = o.sole j k f in ground arith;
      once = λ f. let h = o.held i fd has in let g = o.once f in ground arith;
      later = λ f l. let h = o.held i fd has in let g = o.later f in ground arith;
    })
  ]

  release-Owned : (i : ℕ) (w : Files) → Owned w → Owned (release sys i w)
  release-Owned i w o = elim (Option-cases (w.handles i)) [
    | inl gone ↦ rw gone (clear-Owned i w o)
    | inr (fd, has) ↦ rw has (record {
      held = λ j f e.
          let h = o.held j f in let g = o.held i fd has in let s = o.sole j i f in ground arith;
      sole = λ j k f e g. let s = o.sole j k f in ground arith;
      once = λ f. let h = o.held i fd has in let g = o.once f in ground arith;
      later = λ f l. let h = o.held i fd has in let g = o.later f in ground arith;
    })
  ]

  -- After a `close` the object has nothing.
  pub close-none : (i : ℕ) (w : Files) → (close sys i w).0.handles i ≡ none
  close-none i w = elim (Option-cases (w.handles i)) [
    | inl gone ↦ rw (gone, gone) refl
    | inr (fd, has) ↦ rw has (rw ((==_iff i i).1 refl) refl)
  ]

  pub close-next : (i : ℕ) (w : Files) → (close sys i w).0.next ≡ w.next
  close-next i w = elim (Option-cases (w.handles i)) [
    | inl gone ↦ rw gone refl
    | inr (fd, has) ↦ rw has refl
  ]

  -- A file that is not held stays as it was.
  close-other :
      (i f : ℕ) (w : Files)
      → w.handles i ≢ some f
      → ((close sys i w).0.closes f ≡ w.closes f) × ((close sys i w).0.released f ≡ w.released f)
  close-other i f w h = elim (Option-cases (w.handles i)) [
    | inl gone ↦ rw gone (refl, refl)
    | inr (fd, has) ↦ let apart : fd ≢ f = λ e. h (rw e at has) in rw has (ground arith, refl)
  ]

  -- It gives nothing to any object.
  close-keep : (i j f : ℕ) (w : Files) → (close sys i w).0.handles j ≡ some f → w.handles j ≡ some f
  close-keep i j f w e = elim (Option-cases (w.handles i)) [
    | inl gone ↦ rw gone at e
    | inr (fd, has) ↦ let e' = rw has at e in ground arith
  ]

  construct-Owned : (i : ℕ) (w : Files) → Owned w → Owned (call sys (constructs i) w)
  unfolding call
  construct-Owned i w o =
      let w' = destruct sys i w in
      let o' = close-Owned i w o in
      let same = close-next i w in
      adopt-Owned i w.next (opened w') (close-none i w) (omega arith)
        (o'.later w.next (omega arith)) (λ j e. omega (arith, (o'.held j w.next e).1))
        (opened-Owned w' o')

  reset-Owned : (i : ℕ) (w : Files) → Owned w → Owned (call sys (resets i) w)
  unfolding call
  reset-Owned i w o =
      let before = opened w in
      let w' = (close sys i before).0 in
      let o' = close-Owned i before (opened-Owned w o) in
      let free : (j : ℕ) → w.handles j ≢ some w.next =
        λ j e. omega (arith, (o.held j w.next e).1) in
      let same = close-next i before in
      let kept = close-other i w.next before (free i) in
      let none_yet = o.later w.next (omega arith) in
      elim (Bool-cases (ok (close sys i before).1)) [
        | inl fine ↦
            rw (call, fine)
              (adopt-Owned i w.next w' (close-none i before) (omega arith) (omega arith)
                (λ j e. free j (close-keep i j w.next before e)) o')
        | inr wrong ↦ rw (call, wrong) o'
      ]

  assign-Owned : (i k : ℕ) (w : Files) → Owned w → Owned (call sys (move_assigns i k) w)
  unfolding call
  assign-Owned i k w o =
      let o' = close-Owned i w o in
      elim (Bool-cases (ok (close sys i w).1)) [
        | inl fine ↦ rw (call, fine) (take-Owned i k (close sys i w).0 (close-none i w) o')
        | inr wrong ↦ rw (call, wrong) o'
      ]

  call-Owned : (c : Call) (w : Files) → Owned w → Owned (call sys c w)
  unfolding call
  call-Owned (constructs i) w o = construct-Owned i w o
  call-Owned (destructs i) w o = close-Owned i w o
  call-Owned (closes_it i) w o = close-Owned i w o
  call-Owned (releases i) w o = release-Owned i w o
  call-Owned (resets i) w o = reset-Owned i w o
  call-Owned (move_constructs i k) w o = elim (Bool-cases (i == k)) [
    | inl same ↦ rw same o
    | inr apart ↦ rw apart (take-Owned i k (close sys i w).0 (close-none i w) (close-Owned i w o))
  ]
  call-Owned (move_assigns i k) w o = assign-Owned i k w o

  pub run-Owned : (cs : List Call) (w : Files) → Owned w → Owned (run sys cs w)
  unfolding run
  run-Owned [] w o = o
  run-Owned (c ∷ cs) w o = run-Owned cs (call sys c w) (call-Owned c w o)

pub no_files-Owned : Owned no_files
no_files-Owned = record {
  held = λ i f e. absurd (cc);
  sole = λ i k f e g. absurd (cc);
  once = λ f. omega arith;
  later = λ f l. refl;
}

-- 1 where a handle is of the file
abbrev pub is_of : Option ℕ → ℕ → ℕ
is_of none f = 0
is_of (some g) f = if g == f then 1 else 0

is_of-held : (o : Option ℕ) (f : ℕ) → (is_of o f ≡ 0) ⊎ ((is_of o f ≡ 1) × (o ≡ some f))
is_of-held none f = inl refl
is_of-held (some g) f = elim (Bool-cases (g == f)) [
  | inl same ↦ inr (rw same refl, ap some ((==_iff g f).0 same))
  | inr other ↦ inl (rw other refl)
]

-- Whatever the calls and whatever the system answers, at most one of these has happened to a file,
-- once: it was closed, it was handed to the caller, or one of two objects holds it. So none is closed
-- twice, and none is closed or held that was closed or handed out before.
pub run_owned :
    (sys : ℕ → Answer) (cs : List Call) (i k f : ℕ)
    → i ≢ k
    → let w = run sys cs no_files in
      w.closes f + w.released f + is_of (w.handles i) f + is_of (w.handles k) f ≤ 1
run_owned sys cs i k f differ =
    let w = run sys cs no_files in
    let o = run-Owned sys cs no_files no_files-Owned in
    let most = o.once f in
    elim (is_of-held (w.handles i) f) [
      | inl a ↦ elim (is_of-held (w.handles k) f) [
        | inl b ↦ omega arith
        | inr (b, has) ↦ let h = o.held k f has in omega arith
      ]
      | inr (a, has) ↦ elim (is_of-held (w.handles k) f) [
        | inl b ↦ let h = o.held i f has in omega arith
        | inr (b, has') ↦ absurd (differ (o.sole i k f has has'))
      ]
    ]
