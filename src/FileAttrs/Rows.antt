-- ===== src/FileAttrs/Rows.antt =====
-- The bits of translated attributes.
use asio_extensions.Prelude.{
  ℕ, ◌^◌, ◌<◌, ◌≡◌, ◌⊎◌, inl, inr, refl, sym, ◌∙◌, Bool, true, false, ◌&&◌, ◌||◌, not, List, [],
  ◌∷◌, ◌==◌, ==_iff, ltb, bit, bit_zero, bit_or, has, bit-bit_or, bit-power, has-power, bit_or_fits,
  power_fits, Bool-cases, and_true, true_and, arith,
}
use asio_extensions.FileAttrs.{Row, translate, swapped, file_attrs_to_native, native_to_file_attrs}

-- whether some row turns the bits of `from` into the bit of place `j`
abbrev pub wanted : List Row → ℕ → ℕ → Bool
wanted [] j from = false
wanted ((k, u) ∷ rows) j from = (j == u && bit k from) || wanted rows j from

pub bit-translate :
    (rows : List Row) (j from to : ℕ)
    → bit j (translate rows from to) ≡ (bit j to || wanted rows j from)
unfolding translate
bit-translate [] j from to = ground arith
bit-translate ((k, u) ∷ rows) j from to =
    let test = has-power k from in
    let joined = bit-bit_or j to (2 ^ u) in
    let power = bit-power j u in
    elim (Bool-cases (has from (2 ^ k))) [
      | inl wants ↦
          let rest = bit-translate rows j from (bit_or to (2 ^ u)) in
          let e = sym test ∙ wants in rw wants (rest ∙ ground arith)
      | inr other ↦
          let rest = bit-translate rows j from to in
          let e = sym test ∙ other in rw other (rest ∙ ground arith)
    ]

-- no row with the same attribute or the same flag
abbrev pub apart : Row → List Row → Bool
apart (k, u) [] = true
apart (k, u) ((k', u') ∷ rows) = not (k == k') && (not (u == u') && apart (k, u) rows)

-- All attributes and all flags of the rows are different.
abbrev pub distinct : List Row → Bool
distinct [] = true
distinct (row ∷ rows) = apart row rows && distinct rows

-- The flags are within 32 bits.
abbrev pub fit : List Row → Bool
fit [] = true
fit ((k, u) ∷ rows) = ltb u 32 && fit rows

abbrev pub At : List Row → ℕ → ℕ → Type 0
At [] k u = true ≡ false
At ((k', u') ∷ rows) k u = ((k ≡ k') × (u ≡ u')) ⊎ At rows k u

pub apart-At :
    (rows : List Row) (k u k' u' : ℕ)
    → apart (k', u') rows ≡ true
    → At rows k u
    → ((k' == k) ≡ false) × ((u' == u) ≡ false)
apart-At [] k u k' u' h here = absurd (cc)
apart-At ((k1, u1) ∷ rows) k u k' u' h (inl (e, e')) = rw (e, e') (ground arith, ground arith)
apart-At ((k1, u1) ∷ rows) k u k' u' h (inr there) = apart-At rows k u k' u' (ground arith) there

unwanted : (rows : List Row) (k u from : ℕ) → apart (k, u) rows ≡ true → wanted rows u from ≡ false
unwanted [] k u from h = refl
unwanted ((k', u') ∷ rows) k u from h =
    let rest = unwanted rows k u from (ground arith) in ground arith

or_nothing : (b : Bool) → (b || false) ≡ b
or_nothing b = ground arith

==_sym : (a b : ℕ) → (b == a) ≡ false → (a == b) ≡ false
==_sym a b h = ground arith

ltb-lt : (a b : ℕ) → ltb a b ≡ true → a < b
ltb-lt a b h = ground arith

wanted-At :
    (rows : List Row) (k u from : ℕ)
    → distinct rows ≡ true
    → At rows k u
    → wanted rows u from ≡ bit k from
wanted-At [] k u from d here = absurd (cc)
wanted-At ((k', u') ∷ rows) k u from d (inl (e, e')) =
    let rest = unwanted rows k' u' from (and_true _ _ d).0 in
    let same = (==_iff u' u').1 refl in rw (e, e') (rw (rest, same) (or_nothing (bit k' from)))
wanted-At ((k', u') ∷ rows) k u from d (inr there) =
    let (first, more) = and_true _ _ d in
    let other = (apart-At rows k u k' u' first there).1 in
    rw (==_sym u u' other) (wanted-At rows k u from more there)

apart-swapped :
    (rows : List Row) (k u : ℕ) → apart (k, u) rows ≡ true → apart (u, k) (swapped rows) ≡ true
apart-swapped [] k u h = refl
apart-swapped ((k', u') ∷ rows) k u h =
    let rest = apart-swapped rows k u (ground arith) in ground arith

distinct-swapped : (rows : List Row) → distinct rows ≡ true → distinct (swapped rows) ≡ true
distinct-swapped [] h = refl
distinct-swapped ((k, u) ∷ rows) h =
    let (first, more) = and_true _ _ h in
    true_and _ _ (apart-swapped rows k u first) (distinct-swapped rows more)

At-swapped : (rows : List Row) (k u : ℕ) → At rows k u → At (swapped rows) u k
At-swapped [] k u here = here
At-swapped ((k', u') ∷ rows) k u (inl (e, e')) = inl (e', e)
At-swapped ((k', u') ∷ rows) k u (inr there) = inr (At-swapped rows k u there)

translate_fits :
    (rows : List Row) (from to : ℕ)
    → fit rows ≡ true
    → to < 2 ^ 32
    → translate rows from to < 2 ^ 32
unfolding translate
translate_fits [] from to f h = h
translate_fits ((k, u) ∷ rows) from to f h =
    let p = power_fits u 32 (ground arith) in
    elim (Bool-cases (has from (2 ^ k))) [
      | inl wants ↦ rw wants (
          translate_fits rows from (bit_or to (2 ^ u)) (ground arith)
            (bit_or_fits 32 to (2 ^ u) h p))
      | inr other ↦ rw other (translate_fits rows from to (ground arith) h)
    ]

module _ (rows : List Row) (k u : ℕ) (d : distinct rows ≡ true) (at_row : At rows k u) where
  -- the flag of an attribute, and the attribute of a flag
  pub bit-file_attrs_to_native : (attrs : ℕ) → bit u (file_attrs_to_native rows attrs) ≡ bit k attrs
  bit-file_attrs_to_native attrs =
      let sum = bit-translate rows u attrs 0 in
      let none_yet = bit_zero u in let one = wanted-At rows k u attrs d at_row in ground arith

  pub bit-native_to_file_attrs :
      (native : ℕ) → bit k (native_to_file_attrs rows native) ≡ bit u native
  bit-native_to_file_attrs native =
      let sum = bit-translate (swapped rows) k native 0 in
      let none_yet = bit_zero k in
      let one =
        wanted-At (swapped rows) u k native (distinct-swapped rows d)
          (At-swapped rows k u at_row) in
      ground arith

-- A flag that no row has is not set.
pub bit_unwanted :
    (rows : List Row) (k u attrs : ℕ)
    → apart (k, u) rows ≡ true
    → bit u (file_attrs_to_native rows attrs) ≡ false
bit_unwanted rows k u attrs h =
    let sum = bit-translate rows u attrs 0 in
    let none_yet = bit_zero u in let none_of = unwanted rows k u attrs h in ground arith

pub file_attrs_to_native_fits :
    (rows : List Row) (attrs : ℕ) → fit rows ≡ true → file_attrs_to_native rows attrs < 2 ^ 32
file_attrs_to_native_fits rows attrs f = translate_fits rows attrs 0 f (omega arith)

pub At-fit : (rows : List Row) (k u : ℕ) → fit rows ≡ true → At rows k u → u < 32
At-fit [] k u f here = absurd (cc)
At-fit ((k', u') ∷ rows) k u f (inl (e, e')) = let h = (and_true _ _ f).0 in rw e' (ltb-lt u' 32 h)
At-fit ((k', u') ∷ rows) k u f (inr there) = At-fit rows k u (and_true _ _ f).1 there
