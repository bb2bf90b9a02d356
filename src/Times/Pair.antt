-- ===== src/Times/Pair.antt =====
-- Taking a time apart into seconds and nanoseconds, and putting it together.
use asio_extensions.Prelude.{
  ◌/◌, ◌%◌, ◌<◌, ◌≡◌, ◌≢◌, ◌⊎◌, inl, inr, refl, ap, ◌∙◌, sym, true, false, ◌&&◌, ◌||◌, not,
  Bool-cases, none, some, if-some, if-none, eqb_ℤ-eq, subst, if◌then◌else◌, ℤ, pos, negsuc, ◌≤ℤ◌,
  ◌<ℤ◌, ◌+ℤ◌, ◌-ℤ◌, scale, quot, leb_ℤ, ltb_ℤ, eqb_ℤ, pos_part, neg_part, scale_parts, quot_parts,
  +ℤ_parts, -ℤ_parts, eq_of_parts, eqb_ℤ_self, eqb_ℤ_differ, one_part, nonneg_part, arith,
}
use asio_extensions.Times.{
  Limits, int64, in_limits, safe_duration_cast, tick, max_first, min_first, max_second, min_second,
  may_borrow, normalise, decompose_time, join_negative, compose_time,
}

-- a count of nanoseconds in 64 bits
abbrev pub IsTime : ℤ → Type 0
IsTime c = (int64.lo ≤ℤ c) × (c ≤ℤ int64.hi)

-- limits that hold all seconds and all nanoseconds that a time can have
abbrev pub WideSeconds : Limits → Type 0
WideSeconds l = (l.lo ≤ℤ negsuc 9223372036) × (pos 9223372036 ≤ℤ l.hi)

abbrev pub WideNanoseconds : Limits → Type 0
WideNanoseconds l = (l.lo ≤ℤ pos 0) × (pos 999999999 ≤ℤ l.hi)

min_first_lem : min_first ≡ negsuc 9223372035
unfolding min_first
min_first_lem = refl

max_first_lem : max_first ≡ pos 9223372036
unfolding max_first
max_first_lem = refl

max_second_lem : max_second ≡ pos 854775807
unfolding max_second
max_second_lem = refl

min_second_lem : min_second ≡ pos 145224192
unfolding min_second
min_second_lem = refl

cast_seconds :
    (c : ℤ)
    → in_limits int64 (quot c tick) ≡ true
    → safe_duration_cast 1 tick int64 c ≡ some (quot c tick)
unfolding safe_duration_cast
cast_seconds c h = rw h refl

cast_same : (c : ℤ) → in_limits int64 c ≡ true → safe_duration_cast 1 1 int64 c ≡ some c
unfolding safe_duration_cast
cast_same c h = rw h refl

-- The parts that the two casts give, of one sign.
record Split (c f s : ℤ) : Type 0 where
  seconds : (pos_part f ≡ pos_part c / tick) × (neg_part f ≡ neg_part c / tick)
  rest : (pos_part s ≡ pos_part c % tick) × (neg_part s ≡ neg_part c % tick)

split_lem : (c : ℤ) → Split c (quot c tick) (c -ℤ scale (quot c tick) tick)
split_lem c =
    let q = quot_parts c tick in
    let k = scale_parts (quot c tick) tick in
    let p = -ℤ_parts c (scale (quot c tick) tick) in
    let o = one_part c in
    let r = one_part (c -ℤ scale (quot c tick) tick) in record { seconds = q; rest = omega arith }

-- The two casts of `decompose_time`.
casts_lem :
    (first second : Limits) (c : ℤ)
    → IsTime c
    → decompose_time first second c
      ≡ normalise first second (quot c tick) (c -ℤ scale (quot c tick) tick)
unfolding decompose_time
casts_lem first second c v =
    let p = split_lem c in
    let first_cast = cast_seconds c (ground (arith, p)) in
    let second_cast = cast_same (c -ℤ scale (quot c tick) tick) (ground (arith, p)) in
    rw (first_cast, second_cast, decompose_time) refl

-- Every time is taken apart into whole seconds and the nanoseconds behind them, at least 0 and less than
-- a second, where the types of the two hold all values that this can give.
pub decompose_time_lem :
    (first second : Limits) (c : ℤ)
    → IsTime c
    → WideSeconds first
    → WideNanoseconds second
    → (f : ℤ) × (s : ℤ) × (decompose_time first second c ≡ some (f, s))
      × (pos 0 ≤ℤ s)
      × (s <ℤ pos tick)
      × (c ≡ scale f tick +ℤ s)
decompose_time_lem first second c v w n =
    let f = quot c tick in
    let s = c -ℤ scale f tick in
    let p = split_lem c in
    let o = one_part c in
    elim (Bool-cases (ltb_ℤ s (pos 0))) [
      | inr plain ↦
          let first_fits : in_limits first f ≡ true = ground (arith, p) in
          let second_fits : in_limits second s ≡ true = ground (arith, p) in
          (
            f,
            s,
            casts_lem first second c v ∙ rw (plain, first_fits, second_fits) refl,
            ground (arith, p),
            omega (arith, p),
            omega (
              arith,
              p,
              scale_parts f tick,
              +ℤ_parts (scale f tick) s,
              eq_of_parts c (scale f tick +ℤ s),
            ),
          )
      | inl below ↦
          let f' = f -ℤ pos 1 in
          let s' = s +ℤ pos tick in
          let fp = -ℤ_parts f (pos 1) in
          let sp = +ℤ_parts s (pos tick) in
          let fo = one_part f' in
          let so = one_part s' in
          let some_rest : pos_part s < neg_part s = ground arith in
          let borrow : may_borrow first f ≡ true = rw min_first_lem (ground (arith, p)) in
          let first_fits : in_limits first f' ≡ true = ground (arith, p) in
          let second_fits : in_limits second s' ≡ true = ground (arith, p) in
          (
            f',
            s',
            casts_lem first second c v ∙ rw (below, borrow, first_fits, second_fits) refl,
            ground (arith, p),
            omega (arith, p),
            omega (
              arith,
              p,
              scale_parts f' tick,
              +ℤ_parts (scale f' tick) s',
              eq_of_parts c (scale f' tick +ℤ s'),
            ),
          )
    ]

join_lem : (f s : ℤ) → join_negative f s ≡ scale f tick +ℤ s
join_lem f s =
    let a = scale_parts f tick in
    let b = scale_parts (f +ℤ pos 1) tick in
    let sum = +ℤ_parts (scale f tick) s in
    let next = +ℤ_parts f (pos 1) in
    let gap = -ℤ_parts (pos tick) s in
    let back = -ℤ_parts (scale (f +ℤ pos 1) tick) (pos tick -ℤ s) in
    elim (Bool-cases (eqb_ℤ s (pos 0))) [
      | inl none_left ↦
          let empty : pos_part s ≡ neg_part s = ground arith in
          rw none_left (eq_of_parts (scale f tick) (scale f tick +ℤ s) (omega arith))
      | inr other ↦ rw other (eq_of_parts _ (scale f tick +ℤ s) (omega arith))
    ]

-- the branch of `compose_time` for a time from 1970 on
compose_later :
    (first : Limits) (f s : ℤ)
    → leb_ℤ (pos 0) f ≡ true
    → compose_time first f s ≡ (
        if ltb_ℤ f max_first || (eqb_ℤ f max_first && leb_ℤ s max_second)
        then some (scale f tick +ℤ s)
        else none)
unfolding compose_time
compose_later first f s h = rw h refl

-- and for one before
compose_earlier :
    (first : Limits) (f s : ℤ)
    → leb_ℤ (pos 0) f ≡ false
    → compose_time first f s ≡ (
        if not (eqb_ℤ first.lo min_first) && eqb_ℤ f (min_first -ℤ pos 1)
        then (if ltb_ℤ s min_second then none else some (scale f tick +ℤ s))
        else if ltb_ℤ f min_second
        then none
        else some (scale f tick +ℤ s))
unfolding compose_time
compose_earlier first f s h = rw (h, join_lem f s) refl

-- A time from 1970 on is put together again from the parts that it was taken apart into.
pub compose-decompose :
    (first second : Limits) (c : ℤ)
    → IsTime c
    → pos 0 ≤ℤ c
    → WideSeconds first
    → WideNanoseconds second
    → (f : ℤ) × (s : ℤ) × (decompose_time first second c ≡ some (f, s))
      × (compose_time first f s ≡ some c)
compose-decompose first second c v h w n =
    let (f, s, parts, lo, hi, whole) = decompose_time_lem first second c v w n in
    let k = scale_parts f tick in
    let p = +ℤ_parts (scale f tick) s in
    let fo = one_part f in
    let so = nonneg_part s lo in
    let co = nonneg_part c h in
    let cp = ap pos_part whole in
    let cn = ap neg_part whole in
    let later : leb_ℤ (pos 0) f ≡ true = ground arith in
    let fits : ltb_ℤ f max_first || (eqb_ℤ f max_first && leb_ℤ s max_second) ≡ true =
      rw (max_first_lem, max_second_lem) (ground arith) in
    (f, s, parts, compose_later first f s later ∙ rw (fits, sym whole) refl)

-- No other time before 1970 can be put together but those in the first second of the range.
pub compose_time_negative :
    (first : Limits) (f s : ℤ)
    → f <ℤ pos 0
    → (first.lo ≡ min_first) ⊎ (f ≢ min_first -ℤ pos 1)
    → compose_time first f s ≡ none
compose_time_negative first f s h other =
    let earlier : leb_ℤ (pos 0) f ≡ false = ground arith in
    let last : not (eqb_ℤ first.lo min_first) && eqb_ℤ f (min_first -ℤ pos 1) ≡ false = elim other [
      | inl same ↦ rw (same, eqb_ℤ_self min_first) refl
      | inr off ↦ rw (eqb_ℤ_differ f (min_first -ℤ pos 1) off) (ground arith)
    ] in
    let small : ltb_ℤ f min_second ≡ true = rw min_second_lem (ground arith) in
    compose_earlier first f s earlier ∙ rw (last, small) refl

-- the tests for a time from 1970 on keep it within the limits
later_fits :
    (f s : ℤ)
    → pos 0 ≤ℤ s
    → s <ℤ pos tick
    → leb_ℤ (pos 0) f ≡ true
    → ltb_ℤ f max_first || (eqb_ℤ f max_first && leb_ℤ s max_second) ≡ true
    → IsTime (scale f tick +ℤ s)
unfolding max_first max_second
later_fits f s lo hi later e =
    let k = scale_parts f tick in
    let p = +ℤ_parts (scale f tick) s in
    let fo = one_part f in
    let so = nonneg_part s lo in let vo = one_part (scale f tick +ℤ s) in ground (arith)

-- and so do those for the first second of the range
earlier_fits :
    (f s : ℤ)
    → pos 0 ≤ℤ s
    → s <ℤ pos tick
    → f ≡ min_first -ℤ pos 1
    → ltb_ℤ s min_second ≡ false
    → IsTime (scale f tick +ℤ s)
unfolding min_first min_second ◌-ℤ◌
earlier_fits f s lo hi e test =
    let k = scale_parts f tick in
    let p = +ℤ_parts (scale f tick) s in
    let so = nonneg_part s lo in
    let vo = one_part (scale f tick +ℤ s) in
    let fp = ap pos_part e in let fn = ap neg_part e in ground arith

-- What `compose_time` gives is the time that the parts make up, and it never gives one beyond the
-- limits of the duration.
pub compose_time_exact :
    (first : Limits) (f s : ℤ) {out : ℤ}
    → pos 0 ≤ℤ s
    → s <ℤ pos tick
    → compose_time first f s ≡ some out
    → (out ≡ scale f tick +ℤ s) × IsTime out
compose_time_exact first f s {out} lo hi e = elim (Bool-cases (leb_ℤ (pos 0) f)) [
  | inl later ↦
      let (test, same) = if-some _ (sym (compose_later first f s later) ∙ e) in
      (sym same, subst IsTime same (later_fits f s lo hi later test))
  | inr earlier ↦
      let e' = sym (compose_earlier first f s earlier) ∙ e in
      elim (Bool-cases (not (eqb_ℤ first.lo min_first) && eqb_ℤ f (min_first -ℤ pos 1))) [
        | inl last ↦
            let (test, same) = if-none (ltb_ℤ s min_second) (rw last at e') in
            let here = eqb_ℤ-eq f (min_first -ℤ pos 1) (ground arith) in
            (sym same, subst IsTime same (earlier_fits f s lo hi here test))
        | inr other ↦
            let (test, _) = if-none (ltb_ℤ f min_second) (rw other at e') in
            let late = rw min_second_lem at test in absurd (ground arith)
      ]
]
