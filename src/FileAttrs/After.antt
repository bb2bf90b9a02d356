-- ===== src/FileAttrs/After.antt =====
-- What is read behind a change of attributes or permissions.
use asio_extensions.Prelude.{
  ℕ, ◌^◌, ◌<◌, ◌≡◌, inl, inr, refl, sym, ◌∙◌, ap, Bool, true, false, ◌&&◌, ◌||◌, not, List, some,
  ltb, bit, bit_and, bit_or, has, flip, bit-bit_and, bit-bit_or, bit-flip, all_below_sound, beq,
  beq-eq, if◌then◌else◌, Bool-cases, arith,
}
use asio_extensions.Posix.{Answer, returns, no_error}
use asio_extensions.FileAttrs.{
  Row, adds_or_removes, change, attributes, set_attributes, file_attrs_to_native,
}
use asio_extensions.FileAttrs.Rows.{
  At, distinct, fit, bit-file_attrs_to_native, bit-native_to_file_attrs, file_attrs_to_native_fits,
  At-fit,
}

-- a bit behind a change: by `add`, by `remove`, or else replaced
abbrev pub combined : ℕ → Bool → Bool → Bool
combined opts old new =
    if has opts 2 then old || new else if has opts 4 then old && not new else new

pub options_table : (opts : ℕ) → opts < 8 → adds_or_removes opts ≡ (has opts 2 || has opts 4)
options_table opts h =
    beq-eq _ _ (all_below_sound 8 (λ o. beq (has o 6) (has o 2 || has o 4)) opts refl h)

change_lem :
    (set : ℕ → Answer) (old value opts : ℕ)
    → ((v : ℕ) → set v ≡ returns 0)
    → opts < 8
    → value < 2 ^ 32
    → (new : ℕ) × (change (returns old) opts value set ≡ (no_error, some new))
      × ((j : ℕ) → j < 32 → bit j new ≡ combined opts (bit j old) (bit j value))
unfolding change
change_lem set old value opts fine small fits =
    let table = options_table opts small in
    elim (Bool-cases (has opts 2)) [
      | inl add ↦
          let both : adds_or_removes opts ≡ true = table ∙ rw add refl in
          (
            bit_or old value,
            rw (both, add, fine (bit_or old value)) refl,
            λ j below. rw add (bit-bit_or j old value),
          )
      | inr keep ↦ elim (Bool-cases (has opts 4)) [
        | inl remove ↦
            let both : adds_or_removes opts ≡ true = table ∙ rw (keep, remove) refl in
            (
              bit_and old (flip 32 value),
              rw (both, keep, fine (bit_and old (flip 32 value))) refl,
              λ j below.
                  rw (keep, remove)
                    (bit-bit_and j old (flip 32 value)
                      ∙ ap (λ (b : Bool). bit j old && b) (bit-flip j 32 value below fits)),
            )
        | inr replace ↦
            let both : adds_or_removes opts ≡ false = table ∙ rw (keep, replace) refl in
            (value, rw (both, fine value) refl, λ j below. rw (keep, replace) refl)
      ]
    ]

-- Where the system answers, the attributes that are read behind a change are, each for itself, those
-- from before or-ed with the given ones, those from before without the given ones, or the given
-- ones, as the options say. The system has a flag of 32 bits of its own for each attribute.
pub attributes_after :
    (rows : List Row) (fchflags : ℕ → Answer) (old attrs opts : ℕ)
    → distinct rows ≡ true
    → fit rows ≡ true
    → ((v : ℕ) → fchflags v ≡ returns 0)
    → opts < 8
    → (new : ℕ) × (set_attributes rows (returns old) fchflags attrs opts ≡ (no_error, some new))
      × ((k u : ℕ)
          → At rows k u
          → bit k (attributes rows (returns new)).0
            ≡ combined opts (bit k (attributes rows (returns old)).0) (bit k attrs))
unfolding attributes
attributes_after rows fchflags old attrs opts d f fine small =
    let (new, runs, bits) =
      change_lem fchflags old (file_attrs_to_native rows attrs) opts fine small
        (file_attrs_to_native_fits rows attrs f) in
    (
      new,
      runs,
      λ k u at_row.
          let read = bit-native_to_file_attrs rows k u d at_row in
          read new
          ∙ bits u (At-fit rows k u f at_row)
          ∙ ap (λ (b : Bool). combined opts (bit u old) b)
              (bit-file_attrs_to_native rows k u d at_row attrs)
          ∙ ap (λ (b : Bool). combined opts b (bit k attrs)) (sym (read old)),
    )

mode_bit : (k x : ℕ) → k < 32 → bit k (bit_and x 0x1ff) ≡ (bit k x && ltb k 9)
mode_bit k x h =
    bit-bit_and k x 0x1ff
    ∙ ap (λ (b : Bool). bit k x && b)
        (beq-eq _ _ (all_below_sound 32 (λ j. beq (bit j 0x1ff) (ltb j 9)) k refl h))

and_kept : (b t : Bool) → t ≡ true → (b && t) ≡ b
and_kept b t h = ground arith

pub mode_kept : (k x : ℕ) → k < 9 → bit k (bit_and x 0x1ff) ≡ bit k x
mode_kept k x h = mode_bit k x (omega arith) ∙ and_kept _ _ (ground arith)
