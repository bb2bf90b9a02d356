-- ===== src/Token/Owners.antt =====
-- The owners of control blocks.
use asio_extensions.Prelude.{
  ℕ, ◌<◌, ◌≡◌, ◌≢◌, refl, sym, ap, Option, none, some, some-injective, ◌-◌, ◌==◌, ==_iff, put,
  Bool-cases, inl, inr, arith,
}
use asio_extensions.Token.{
  one_less, World, Call, constructs, cancels, destroys, resets, move_constructs, move_assigns, call,
}

-- All sources hold the null pointer, and each owns a block that no other owns.
pub record Valid (w : World) : Type 0 where
  pub null : (j : ℕ) → (w.sources j).get ≡ 0
  pub once : (j b : ℕ) → (w.sources j).block ≡ some b → (w.blocks.uses b ≡ 1) × (b < w.blocks.next)
  pub sole : (j k b : ℕ) → (w.sources j).block ≡ some b → (w.sources k).block ≡ some b → j ≡ k

pub other_kept : (o : Option ℕ) (u : ℕ → ℕ) (b : ℕ) → o ≢ some b → one_less o u b ≡ u b
other_kept none u b h = refl
other_kept (some c) u b h = elim (Bool-cases (b == c)) [
  | inl same ↦ absurd (h (ap some (sym ((==_iff b c).0 same))))
  | inr off ↦ rw off refl
]

pub own_less : (o : Option ℕ) (u : ℕ → ℕ) (b : ℕ) → o ≡ some b → one_less o u b ≡ u b - 1
own_less o u b h = rw h (ground arith)

renew_Valid : (i : ℕ) (w : World) → Valid w → Valid (call (constructs i) w)
unfolding call
renew_Valid i w v = record {
  null = λ j. let n = v.null j in ground arith;
  once = λ j b e.
      let n = w.blocks.next in
      let old = (w.sources i).block in
      elim (Bool-cases (j == i)) [
        | inl here ↦
            let new : n ≡ b = some-injective (rw here at e) in
            let apart : old ≢ some b = λ g. let o = v.once i b g in omega arith in
            let kept = other_kept old (put w.blocks.uses n 1) b apart in ground arith
        | inr away ↦
            let held : (w.sources j).block ≡ some b = rw away at e in
            let o = v.once j b held in
            let apart : old ≢ some b = λ g. let s = v.sole j i b held g in ground arith in
            let kept = other_kept old (put w.blocks.uses n 1) b apart in ground arith
      ];
  sole =
      λ j k b e f. let o = v.once j b in let p = v.once k b in let s = v.sole j k b in ground arith;
}

drop_Valid : (i : ℕ) (w : World) → Valid w → Valid (call (destroys i) w)
unfolding call
drop_Valid i w v = record {
  null = λ j. let n = v.null j in ground arith;
  once = λ j b e.
      let old = (w.sources i).block in
      elim (Bool-cases (j == i)) [
        | inl here ↦ absurd (let none_left : none ≡ some b = rw here at e in cc)
        | inr away ↦
            let held : (w.sources j).block ≡ some b = rw away at e in
            let o = v.once j b held in
            let apart : old ≢ some b = λ g. let s = v.sole j i b held g in ground arith in
            let kept = other_kept old w.blocks.uses b apart in ground arith
      ];
  sole = λ j k b e f. let s = v.sole j k b in ground arith;
}

take_Valid : (i k : ℕ) (w : World) → Valid w → Valid (call (move_assigns i k) w)
unfolding call
take_Valid i k w v = elim (Bool-cases (i == k)) [
  | inl same ↦ rw same v
  | inr differ ↦ rw differ (record {
    null = λ j. let n = v.null j in let m = v.null k in ground arith;
    once = λ j b e.
        let old = (w.sources i).block in
        elim (Bool-cases (j == i)) [
          | inl here ↦
              let held : (w.sources k).block ≡ some b = rw here at e in
              let o = v.once k b held in
              let apart : old ≢ some b = λ g. let s = v.sole k i b held g in ground arith in
              let kept = other_kept old w.blocks.uses b apart in ground arith
          | inr away ↦ elim (Bool-cases (j == k)) [
            | inl left ↦ absurd (let none_left : none ≡ some b = rw (away, left) at e in cc)
            | inr other ↦
                let held : (w.sources j).block ≡ some b = rw (away, other) at e in
                let o = v.once j b held in
                let apart : old ≢ some b = λ g. let s = v.sole j i b held g in ground arith in
                let kept = other_kept old w.blocks.uses b apart in ground arith
          ]
        ];
    sole = λ j l b e f.
        let s = v.sole j l b in let t = v.sole k l b in let u = v.sole j k b in ground arith;
  })
]

-- `reset` of a source that owns a block cancels its tokens too.
pub reset_lem : (i : ℕ) (w : World) → Valid w → call (resets i) w ≡ call (cancels i) w
unfolding call
reset_lem i w v = rw (v.null i) refl

pub call-Valid : (c : Call) (w : World) → Valid w → Valid (call c w)
unfolding call
call-Valid (constructs i) w v = renew_Valid i w v
call-Valid (cancels i) w v = renew_Valid i w v
call-Valid (destroys i) w v = drop_Valid i w v
call-Valid (resets i) w v = rw (reset_lem i w v) (renew_Valid i w v)
call-Valid (move_constructs i k) w v = take_Valid i k w v
call-Valid (move_assigns i k) w v = take_Valid i k w v
