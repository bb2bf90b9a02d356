-- ===== src/Prelude/Memory.antt =====
-- A block of memory as the list of its bytes: what `memcpy` and `memmove` do to it.
use Prim.Native.Nat.{ℕ, zero, suc, ◌+◌, ◌≤◌}
use mathlib.Core.Path.{◌≡◌, refl, ap, ◌∙◌}
use mathlib.Core.List.{List, [], ◌∷◌, ◌++◌}
use native.Mathlib.Omega.{arith}
use asio_extensions.Prelude.Lists.{
  length, take, drop, length-take, take-append_left, take-append_right, take_all, length-drop,
  take-take,
}

abbrev pub Bytes : Type 0
Bytes = List ℕ

-- `memcpy(block + at, xs, n)`. A write past the end changes nothing; the callers' theorems show
-- that there is none.
abbrev pub write_at : Bytes → ℕ → Bytes → Bytes
write_at [] i xs = []
write_at (m ∷ ms) zero [] = m ∷ ms
write_at (m ∷ ms) zero (x ∷ xs) = x ∷ write_at ms zero xs
write_at (m ∷ ms) (suc i) xs = m ∷ write_at ms i xs

-- the `n` bytes at `block + at`
abbrev pub read_at : Bytes → ℕ → ℕ → Bytes
read_at block i n = take n (drop i block)

-- `memmove(block + to, block + from, n)`: the source is read before it is written.
abbrev pub move_within : Bytes → ℕ → ℕ → ℕ → Bytes
move_within block to from n = write_at block to (read_at block from n)

pub length-write_at : (b : Bytes) (i : ℕ) (xs : Bytes) → length (write_at b i xs) ≡ length b
length-write_at [] i xs = refl
length-write_at (m ∷ ms) zero [] = refl
length-write_at (m ∷ ms) zero (x ∷ xs) = ap suc (length-write_at ms zero xs)
length-write_at (m ∷ ms) (suc i) xs = ap suc (length-write_at ms i xs)

-- Inside the block a write replaces exactly the bytes from `i` up to `j`.
write_at_lem :
    (b : Bytes) (i j : ℕ) (xs : Bytes)
    → j ≡ i + length xs
    → j ≤ length b
    → write_at b i xs ≡ take i b ++ (xs ++ drop j b)
write_at_lem [] zero zero [] e h = refl
write_at_lem [] zero zero (x ∷ xs) e h = absurd (omega arith)
write_at_lem [] (suc i) zero xs e h = absurd (omega arith)
write_at_lem [] i (suc j) xs e h = absurd (omega arith)
write_at_lem (m ∷ ms) zero zero [] e h = refl
write_at_lem (m ∷ ms) zero (suc j) [] e h = absurd (omega arith)
write_at_lem (m ∷ ms) zero zero (x ∷ xs) e h = absurd (omega arith)
write_at_lem (m ∷ ms) zero (suc j) (x ∷ xs) e h =
    ap (◌∷◌ x) (write_at_lem ms zero j xs (omega arith) (omega arith))
write_at_lem (m ∷ ms) (suc i) zero xs e h = absurd (omega arith)
write_at_lem (m ∷ ms) (suc i) (suc j) xs e h =
    ap (◌∷◌ m) (write_at_lem ms i j xs (omega arith) (omega arith))

-- Writing right behind a prefix.
pub take-write_at :
    (b : Bytes) (i j : ℕ) (xs : Bytes)
    → j ≡ i + length xs
    → j ≤ length b
    → take j (write_at b i xs) ≡ take i b ++ xs
take-write_at b i j xs e h = rw (write_at_lem b i j xs e h) (
    take-append_right j (length xs) (take i b) (xs ++ drop j b) (omega (arith, length-take i b))
    ∙ ap (◌++◌ (take i b))
        (take-append_left (length xs) xs (drop j b) (omega arith) ∙ take_all _ xs (omega arith)))

-- The same, with `d` bytes behind what is written.
pub take-write_at_past :
    (b : Bytes) (i j k d : ℕ) (xs : Bytes)
    → j ≡ i + length xs
    → k ≡ j + d
    → k ≤ length b
    → take k (write_at b i xs) ≡ take i b ++ (xs ++ read_at b j d)
take-write_at_past b i j k d xs e q h = rw (write_at_lem b i j xs e (omega arith)) (
    take-append_right k (length xs + d) (take i b) _ (omega (arith, length-take i b))
    ∙ ap (◌++◌ (take i b)) (take-append_right (length xs + d) d xs (drop j b) refl))

-- Bytes before the write.
pub take-write_at_before :
    (b : Bytes) (k i j : ℕ) (xs : Bytes)
    → k ≤ i
    → j ≡ i + length xs
    → j ≤ length b
    → take k (write_at b i xs) ≡ take k b
take-write_at_before b k i j xs h e q =
    rw (write_at_lem b i j xs e q)
      (take-append_left k (take i b) _ (omega (arith, length-take i b)) ∙ take-take k i b h)

pub length-read_at : (b : Bytes) (i n : ℕ) → i + n ≤ length b → length (read_at b i n) ≡ n
length-read_at b i n h = omega (arith, length-take n (drop i b), length-drop i b)

-- A cut inside what was written.
pub take-write_at_part :
    (b : Bytes) (i k : ℕ) (xs : Bytes)
    → k ≤ length xs
    → i + length xs ≤ length b
    → take (i + k) (write_at b i xs) ≡ take i b ++ take k xs
take-write_at_part b i k xs h l = rw (write_at_lem b i _ xs refl l) (
    take-append_right (i + k) k (take i b) _ (omega (arith, length-take i b))
    ∙ ap (◌++◌ (take i b)) (take-append_left k xs _ h))
