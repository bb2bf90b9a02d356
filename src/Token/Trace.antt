-- ===== src/Token/Trace.antt =====
-- The source that a control block belongs to, through the calls.
use asio_extensions.Prelude.{
  ℕ, ◌<◌, ◌≡◌, ◌≢◌, false, List, [], ◌∷◌, Option, none, some, ◌==◌, ==_iff, if◌then◌else◌, put,
  Bool-cases, inl, inr, arith,
}
use asio_extensions.Token.{
  World, Call, constructs, cancels, destroys, resets, move_constructs, move_assigns, call, run,
}
use asio_extensions.Token.Owners.{Valid, other_kept, own_less, reset_lem, call-Valid}

-- Where the source that a token was made from is after a call, and none when that source has let
-- the token go.
abbrev pub follow_call : Call → ℕ → Option ℕ
follow_call (constructs j) i = if i == j then none else some i
follow_call (cancels j) i = if i == j then none else some i
follow_call (destroys j) i = if i == j then none else some i
follow_call (resets j) i = if i == j then none else some i
follow_call (move_constructs j k) i =
    if j == k then some i else if i == k then some j else if i == j then none else some i
follow_call (move_assigns j k) i =
    if j == k then some i else if i == k then some j else if i == j then none else some i

pub follow : List Call → Option ℕ → Option ℕ
follow cs none = none
follow [] (some i) = some i
follow (c ∷ cs) (some i) = follow cs (follow_call c i)

-- a block that no source owns any more
pub record Gone (w : World) (b : ℕ) : Type 0 where
  pub unused : w.blocks.uses b ≡ 0
  pub made : b < w.blocks.next
  pub unowned : (j : ℕ) → (w.sources j).block ≢ some b

unfoldable pub Held : World → ℕ → Option ℕ → Type 0
Held w b none = Gone w b
Held w b (some i) = (w.sources i).block ≡ some b

Gone-renew : (i : ℕ) (w : World) (b : ℕ) → Gone w b → Gone (call (constructs i) w) b
unfolding call
Gone-renew i w b g =
    let kept = other_kept (w.sources i).block (put w.blocks.uses w.blocks.next 1) b (g.unowned i) in
    record {
      unused = let u = g.unused in let m = g.made in ground arith;
      made = let m = g.made in omega arith;
      unowned = λ j e. let m = g.made in let u = g.unowned j in ground arith;
    }

Gone-drop : (i : ℕ) (w : World) (b : ℕ) → Gone w b → Gone (call (destroys i) w) b
unfolding call
Gone-drop i w b g =
    let kept = other_kept (w.sources i).block w.blocks.uses b (g.unowned i) in
    record {
      unused = let u = g.unused in ground arith;
      made = g.made;
      unowned = λ j e. let u = g.unowned j in ground arith;
    }

Gone-take : (i k : ℕ) (w : World) (b : ℕ) → Gone w b → Gone (call (move_assigns i k) w) b
unfolding call
Gone-take i k w b g =
    let kept = other_kept (w.sources i).block w.blocks.uses b (g.unowned i) in
    elim (Bool-cases (i == k)) [
      | inl same ↦ rw same g
      | inr differ ↦ rw differ (record {
        unused = let u = g.unused in ground arith;
        made = g.made;
        unowned = λ j e. let u = g.unowned j in let l = g.unowned k in ground arith;
      })
    ]

Gone-call : (c : Call) (w : World) (b : ℕ) → Valid w → Gone w b → Gone (call c w) b
unfolding call
Gone-call (constructs i) w b v g = Gone-renew i w b g
Gone-call (cancels i) w b v g = Gone-renew i w b g
Gone-call (destroys i) w b v g = Gone-drop i w b g
Gone-call (resets i) w b v g = rw (reset_lem i w v) (Gone-renew i w b g)
Gone-call (move_constructs i k) w b v g = Gone-take i k w b g
Gone-call (move_assigns i k) w b v g = Gone-take i k w b g

-- The source that owns a block lets it go.
renew_Gone :
    (i : ℕ) (w : World) (b : ℕ)
    → Valid w
    → (w.sources i).block ≡ some b
    → Gone (call (constructs i) w) b
unfolding call
renew_Gone i w b v e =
    let o = v.once i b e in
    let less = own_less (w.sources i).block (put w.blocks.uses w.blocks.next 1) b e in
    record {
      unused = ground arith;
      made = omega arith;
      unowned = λ j f. let s = v.sole j i b in ground arith;
    }

drop_Gone :
    (i : ℕ) (w : World) (b : ℕ)
    → Valid w
    → (w.sources i).block ≡ some b
    → Gone (call (destroys i) w) b
unfolding call
drop_Gone i w b v e =
    let o = v.once i b e in
    let less = own_less (w.sources i).block w.blocks.uses b e in
    record {
      unused = ground arith;
      made = o.1;
      unowned = λ j f. let s = v.sole j i b in ground arith;
    }

take_Gone :
    (i k : ℕ) (w : World) (b : ℕ)
    → Valid w
    → (i == k) ≡ false
    → (w.sources i).block ≡ some b
    → Gone (call (move_assigns i k) w) b
unfolding call
take_Gone i k w b v apart e =
    let o = v.once i b e in
    let less = own_less (w.sources i).block w.blocks.uses b e in
    rw apart (record {
      unused = ground arith;
      made = o.1;
      unowned = λ j f. let s = v.sole j i b in let t = v.sole k i b in ground arith;
    })

Held-renew :
    (j : ℕ) (w : World) (b i : ℕ)
    → Valid w
    → (w.sources i).block ≡ some b
    → Held (call (constructs j) w) b (if i == j then none else some i)
unfolding Held call
Held-renew j w b i v e = elim (Bool-cases (i == j)) [
  | inl same ↦ let here = (==_iff i j).0 same in rw same (renew_Gone j w b v (rw here at e))
  | inr differ ↦ rw differ (ground arith)
]

Held-drop :
    (j : ℕ) (w : World) (b i : ℕ)
    → Valid w
    → (w.sources i).block ≡ some b
    → Held (call (destroys j) w) b (if i == j then none else some i)
unfolding Held call
Held-drop j w b i v e = elim (Bool-cases (i == j)) [
  | inl same ↦ let here = (==_iff i j).0 same in rw same (drop_Gone j w b v (rw here at e))
  | inr differ ↦ rw differ (ground arith)
]

Held-take :
    (j k : ℕ) (w : World) (b i : ℕ)
    → Valid w
    → (w.sources i).block ≡ some b
    → Held (call (move_assigns j k) w) b (follow_call (move_assigns j k) i)
unfolding Held call
Held-take j k w b i v e = elim (Bool-cases (j == k)) [
  | inl self ↦ rw self e
  | inr apart ↦ elim (Bool-cases (i == k)) [
    | inl moved ↦
        rw (apart, moved)
          (let here = (==_iff i k).0 moved in
            let owned : (w.sources k).block ≡ some b = rw here at e in ground arith)
    | inr stays ↦ elim (Bool-cases (i == j)) [
      | inl same ↦
          let here = (==_iff i j).0 same in
          let gone = take_Gone j k w b v apart (rw here at e) in
          rw (apart, stays, same) (rw apart at gone)
      | inr differ ↦ rw (apart, stays, differ) (ground arith)
    ]
  ]
]

pub Held-call :
    (c : Call) (w : World) (b i : ℕ)
    → Valid w
    → (w.sources i).block ≡ some b
    → Held (call c w) b (follow_call c i)
unfolding call
Held-call (constructs j) w b i v e = Held-renew j w b i v e
Held-call (cancels j) w b i v e = Held-renew j w b i v e
Held-call (destroys j) w b i v e = Held-drop j w b i v e
Held-call (resets j) w b i v e = rw (reset_lem j w v) (Held-renew j w b i v e)
Held-call (move_constructs j k) w b i v e = Held-take j k w b i v e
Held-call (move_assigns j k) w b i v e = Held-take j k w b i v e

pub Held-run :
    (cs : List Call) (w : World) (b : ℕ) (o : Option ℕ)
    → Valid w
    → Held w b o
    → Valid (run cs w) × Held (run cs w) b (follow cs o)
unfolding run follow Held
Held-run [] w b none v h = (v, h)
Held-run [] w b (some i) v h = (v, h)
Held-run (c ∷ cs) w b none v h =
    Held-run cs (call c w) b none (call-Valid c w v) (Gone-call c w b v h)
Held-run (c ∷ cs) w b (some i) v h =
    Held-run cs (call c w) b (follow_call c i) (call-Valid c w v) (Held-call c w b i v h)
