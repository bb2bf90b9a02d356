-- ===== src/Windows/Attributes.antt =====
-- What is read behind a change of attributes or permissions on Windows.
use asio_extensions.Prelude.{
  ℕ, ◌^◌, ◌<◌, ◌≡◌, inl, inr, refl, sym, ◌∙◌, ap, Bool, true, false, ◌&&◌, List, ◌∷◌, Option, none,
  some, ◌==◌, ==_iff, bit, bit_zero, has, flip, bit-bit_and, bit-bit_or, bit-flip, bit-power,
  and_true, Bool-cases, arith,
}
use asio_extensions.Posix.{Answer, returns, Code}
use asio_extensions.FileAttrs.{Row, adds_or_removes, file_attrs_to_native}
use asio_extensions.FileAttrs.Rows.{
  At, distinct, fit, bit-file_attrs_to_native, bit-native_to_file_attrs, file_attrs_to_native_fits,
  At-fit, apart-At, bit_unwanted,
}
use asio_extensions.FileAttrs.After.{combined, options_table}
use asio_extensions.Windows.{
  AttributeBits, rows, attributes, new_attributes, not_zero, set_attributes, write_perms,
  permissions,
}

-- the flags of the system, with numbers of no attribute for the two that have none
abbrev pub flag_rows : AttributeBits → List Row
flag_rows bits = (100, bits.normal) ∷ (101, bits.readonly) ∷ rows bits

bit-new_attributes :
    (old value opts j : ℕ)
    → opts < 8
    → value < 2 ^ 32
    → j < 32
    → bit j (new_attributes old value opts) ≡ combined opts (bit j old) (bit j value)
bit-new_attributes old value opts j small fits below =
    let table = options_table opts small in
    elim (Bool-cases (has opts 2)) [
      | inl add ↦
          let both : adds_or_removes opts ≡ true = table ∙ rw add refl in
          rw (both, add) (bit-bit_or j old value)
      | inr keep ↦ elim (Bool-cases (has opts 4)) [
        | inl remove ↦
            let both : adds_or_removes opts ≡ true = table ∙ rw (keep, remove) refl in
            rw (both, keep, remove)
              (bit-bit_and j old (flip 32 value)
                ∙ ap (λ (b : Bool). bit j old && b) (bit-flip j 32 value below fits))
        | inr replace ↦
            let both : adds_or_removes opts ≡ false = table ∙ rw (keep, replace) refl in
            rw (both, keep, replace) refl
      ]
    ]

-- The flag that stands for no flags changes no other one.
bit-not_zero :
    (bits : AttributeBits) (x j : ℕ)
    → (bits.normal == j) ≡ false
    → bit j (not_zero bits x) ≡ bit j x
bit-not_zero bits x j other = elim (Bool-cases (x == 0)) [
  | inl empty ↦
      let e = (==_iff x 0).0 empty in
      rw empty (bit-power j bits.normal ∙ ground arith ∙ sym (bit_zero j) ∙ ap (bit j) (sym e))
  | inr full ↦ rw full refl
]

-- Where the system answers, the attributes that are read behind a change are, each for itself, what
-- the options say. Being read-only is kept by `add` and by `remove`, and lost by a replacement,
-- whatever the attributes. The error code stays what it was. The flags of the system are different
-- and within 32 bits.
pub windows_attributes_after :
    (bits : AttributeBits) (set : ℕ → Answer) (old attrs opts : ℕ) (ec : Code)
    → distinct (flag_rows bits) ≡ true
    → fit (flag_rows bits) ≡ true
    → ((v : ℕ) → set v ≡ returns 1)
    → opts < 8
    → (new : ℕ) × (set_attributes bits (returns old) set attrs opts ec ≡ (ec, some new))
      × ((k u : ℕ)
          → At (rows bits) k u
          → bit k (attributes bits (returns new)).0
            ≡ combined opts (bit k (attributes bits (returns old)).0) (bit k attrs))
      × (bit bits.readonly new ≡ combined opts (bit bits.readonly old) false)
windows_attributes_after bits set old attrs opts ec d f fine small =
    let (normal_apart, d1) = and_true _ _ d in
    let (readonly_apart, d2) = and_true _ _ d1 in
    let (f0, f1) = and_true _ _ f in
    let (f2, f3) = and_true _ _ f1 in
    let value = file_attrs_to_native (rows bits) attrs in
    let fits = file_attrs_to_native_fits (rows bits) attrs f3 in
    let merged = new_attributes old value opts in
    let new = not_zero bits merged in
    (
      new,
      rw (fine new) refl,
      λ k u at_row.
          let read = bit-native_to_file_attrs (rows bits) k u d2 at_row in
          read new
          ∙ bit-not_zero bits merged u
              (apart-At ((101, bits.readonly) ∷ rows bits) k u 100 bits.normal normal_apart
                (inr at_row)).1
          ∙ bit-new_attributes old value opts u small fits (At-fit (rows bits) k u f3 at_row)
          ∙ ap (λ (b : Bool). combined opts (bit u old) b)
              (bit-file_attrs_to_native (rows bits) k u d2 at_row attrs)
          ∙ ap (λ (b : Bool). combined opts b (bit k attrs)) (sym (read old)),
      bit-not_zero bits merged bits.readonly
            (apart-At ((101, bits.readonly) ∷ rows bits) 101 bits.readonly 100 bits.normal
              normal_apart (inl (refl, refl))).1
          ∙ bit-new_attributes old value opts bits.readonly small fits
              (At-fit (flag_rows bits) 101 bits.readonly f (inr (inl (refl, refl))))
          ∙ ap (λ (b : Bool). combined opts (bit bits.readonly old) b)
              (bit_unwanted (rows bits) 101 bits.readonly attrs readonly_apart),
    )

-- whether someone may write
abbrev pub writable : AttributeBits → ℕ → Bool
writable bits info = has (permissions bits (returns info)).0 write_perms

-- what is set in the end: where nothing was set, what was there
abbrev pub after : Option ℕ → ℕ → ℕ
after none old = old
after (some new) old = new
