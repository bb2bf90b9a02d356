-- ===== src/DynamicBuffer/Window.antt =====
-- The second form of Asio's DynamicBuffer: `data(pos, n)`, `grow` and `shrink`, over a buffer whose
-- size was not taken over by `prepare`.
use asio_extensions.Prelude.{
  ℕ, ◌+◌, ◌-◌, ◌≤◌, ◌<◌, min, ◌≡◌, ◌≢◌, ◌⊎◌, ◌↔◌, inl, inr, refl, ◌∙◌, sym, ap, Bool-cases, arith,
  ltb, Option, none, some, take, take-take,
}
use asio_extensions.LinearBuffer.{
  Allocator, Outcome, ◌>>=◌, ok, throw, length_error, bad_alloc, size_mod, contents, add_size,
  sub_size,
}
use asio_extensions.LinearBuffer.Growth.{IsValid, NoMemory}
use asio_extensions.LinearBuffer.Resize.{prefix, resize_result}
use asio_extensions.DynamicBuffer.{
  Dynamic, Region, npos, size, all_data, data_at, too_long, start_size, grow, shrink, prepare,
  prepare_ec, prepare_from,
}

-- `data(pos, n)` is the part of the window that the buffer has: from `pos`, or the end of the
-- buffer, on, and at most what is left behind it. This is where the size of the buffer, `n`, and
-- the sum of the start and `n` are below 2^64.
pub data_at_region :
    (d : Dynamic) (pos n : ℕ)
    → d.target.size < size_mod
    → n < size_mod
    → min pos d.target.size + n < size_mod
    → ((data_at d pos n).offset ≡ min pos d.target.size)
      × ((data_at d pos n).len ≡ min n (d.target.size - min pos d.target.size))
unfolding data_at
data_at_region d pos n h l w = elim (Bool-cases (ltb d.target.size pos)) [
  | inl past ↦ rw past (ground arith, ground arith)
  | inr inside ↦ rw inside (ground arith, ground arith)
]

-- Where the start of the window and `n` have a sum of 2^64 or more, which wraps to a position
-- inside the buffer, `data(pos, n)` spans all `n` bytes, however long the buffer is. Both its size
-- and `n` are below 2^64.
pub data_at_wraps :
    (d : Dynamic) (pos n : ℕ)
    → d.target.size < size_mod
    → n < size_mod
    → size_mod ≤ min pos d.target.size + n
    → min pos d.target.size + n ≤ size_mod + d.target.size
    → (data_at d pos n).len ≡ n
unfolding data_at
data_at_wraps d pos n h l w t = elim (Bool-cases (ltb d.target.size pos)) [
  | inl past ↦ rw past (ground arith)
  | inr inside ↦ rw inside (ground arith)
]

-- `data()` lies inside the buffer once `prepare` has run, and spans `npos` bytes before.
all_data_bounds :
    (d : Dynamic)
    → (d.size_ ≢ npos → d.size_ ≤ d.target.size)
    → d.target.size < npos
    → ((all_data d).offset + (all_data d).len ≤ d.target.size) ↔ (d.size_ ≢ npos)
unfolding all_data
all_data_bounds d counted h = (λ l e. omega arith, λ ne. omega (arith, counted ne))

size_fresh : (d : Dynamic) → d.size_ ≡ npos → size d ≡ min d.target.size d.max_size
unfolding size
size_fresh d fresh = ground arith

module _ (al : Allocator) {d : Dynamic} where
  -- `grow` of a valid buffer whose size was not taken over by `prepare`, and which is within a
  -- maximum that is at most the buffer's own, throws `length_error` just where `n` more bytes are
  -- beyond that maximum, and `bad_alloc` where a larger block is needed and there is none; else
  -- the size is larger by `n` and the old bytes stand in front.
  pub grow_result :
      (n : ℕ)
      → IsValid d.target
      → d.size_ ≡ npos
      → d.max_size ≤ d.target.max_size
      → d.target.size ≤ d.max_size
      → ((d.max_size < d.target.size + n) × (grow al d n ≡ throw length_error))
        ⊎ (NoMemory al d.target (d.target.size + n) × (grow al d n ≡ throw bad_alloc))
        ⊎ ((e : Dynamic) × (grow al d n ≡ ok e)
            × IsValid e.target
            × (size e ≡ size d + n)
            × (take (size d) (contents e.target) ≡ contents d.target))
  unfolding grow
  grow_result n v fresh m h =
      let now : size d ≡ d.target.size = size_fresh d fresh ∙ omega arith in
      elim (Bool-cases (too_long d d.target.size n)) [
        | inl long ↦ inl (ground arith, rw (now, long))
        | inr short ↦
            let fits : d.target.size + n ≤ d.max_size = ground arith in
            let sum : add_size d.target.size n ≡ d.target.size + n = omega (arith, v) in
            elim (resize_result al {b = d.target} (d.target.size + n) v) [
              | inl (long, e) ↦ absurd (omega arith)
              | inr (inl (f, no_memory, e)) ↦ inr (inl (no_memory, rw (now, short, sum, e)))
              | inr (inr (b, e, f, r)) ↦
                  let after = record d { target = b } in
                  inr (
                    inr (
                      after,
                      rw (now, short, sum, e),
                      r.valid,
                      rw now (size_fresh after fresh ∙ omega (arith, r.size_is)),
                      rw now (
                          prefix d.target.size r (omega arith) (omega arith)
                          ∙ take-take d.target.size d.target.size d.target.store (omega arith)),
                    ))
            ]
      ]

  -- `shrink` of a valid buffer whose size was not taken over by `prepare`, with a maximum that is
  -- at most the buffer's own, never fails: it takes `n` bytes off the end, or all.
  pub shrink_lem :
      (n : ℕ)
      → IsValid d.target
      → d.size_ ≡ npos
      → d.max_size ≤ d.target.max_size
      → (e : Dynamic) × (shrink al d n ≡ ok e)
        × IsValid e.target
        × (size e ≡ size d - n)
        × (contents e.target ≡ take (size d - n) (contents d.target))
  unfolding shrink
  shrink_lem n v fresh m =
      let now = size_fresh d fresh in
      let left : sub_size (size d) (min (size d) n) ≡ size d - n = omega (arith, v, now) in
      elim (resize_result al {b = d.target} (size d - n) v) [
        | inl (long, e) ↦ absurd (omega (arith, now))
        | inr (inl (f, no_memory, e)) ↦ absurd (omega (arith, now, no_memory, v))
        | inr (inr (b, e, f, r)) ↦
            let after = record d { target = b } in
            (
              after,
              rw (left, e),
              r.valid,
              size_fresh after fresh ∙ omega (arith, r.size_is, now),
              sym (take-take b.size b.size b.store (omega arith))
                  ∙ ap (λ (k : ℕ). take k (contents b)) r.size_is
                  ∙ prefix (size d - n) r (omega arith) (omega (arith, now)),
            )
      ]

-- what `prepare(n, ec)` leaves, as `prepare(n)` says it
abbrev pub or_throw : Dynamic × Option Region → Outcome (Dynamic × Region)
or_throw (d, none) = throw length_error
or_throw (d, some region) = ok (d, region)

abbrev with_region : Dynamic × Region → Outcome (Dynamic × Option Region)
with_region (d, region) = ok (d, some region)

rejoin : (o : Outcome (Dynamic × Region)) → o ≡ ((o >>= with_region) >>= or_throw)
rejoin (ok (d, region)) = refl
rejoin (throw e) = refl

-- The two forms of `prepare` differ in how they say that the bytes are too many: the one throws
-- `length_error`, where the other returns no region and leaves the object alone.
pub prepare_ec-eq-prepare :
    (al : Allocator) (d : Dynamic) (n : ℕ) → prepare al d n ≡ (prepare_ec al d n >>= or_throw)
unfolding prepare prepare_ec
prepare_ec-eq-prepare al d n = elim (Bool-cases (too_long d (start_size d) n)) [
  | inl long ↦ rw long refl
  | inr short ↦ rw short (rejoin (prepare_from al d (start_size d) n))
]
