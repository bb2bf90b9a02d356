-- ===== src/Posix/Open.antt =====
-- Opening files: `open` and `parse_open_flags` of include/asioext/detail/impl/posix_file_ops.cpp, and
-- `is_valid` of include/asioext/impl/open_flags.cpp.
use Prim.Native.Nat.{bit_and, bit_or}
use asio_extensions.Prelude.{
  ℕ, zero, suc, ◌+◌, ◌/◌, ◌%◌, ◌<◌, ◌≡◌, ◌≢◌, refl, Bool, true, false, ◌&&◌, ◌||◌, not, has, List,
  [], ◌∷◌, ◌++◌, Option, none, some, ◌==◌, ==_iff, leb, if◌then◌else◌, ◌⊎◌, inl, inr, Bool-cases,
  all_below_sound, beq, beq-eq, and_true, arith,
}
use asio_extensions.Posix.{Answer, returns, fails, Code, no_error, system}
use asio_extensions.Posix.Retry.{interrupted, not_again, same_again}

abbrev bit_count : Bool → ℕ
bit_count true = 1
bit_count false = 0

-- the flags by the bits of `enum class open_flags`
unfoldable pub is_valid : ℕ → Bool
is_valid flags =
    leb
      (bit_count (has flags 4)
        + bit_count (has flags 8)
        + bit_count (has flags 16)
        + bit_count (has flags 32)
        + bit_count (has flags 64))
      1

-- the constants of <fcntl.h> that are used
pub record Native : Type 0 where
  pub o_creat : ℕ
  pub o_excl : ℕ
  pub o_trunc : ℕ
  pub o_rdonly : ℕ
  pub o_wronly : ℕ
  pub o_rdwr : ℕ

abbrev creation_flags : Native → ℕ → ℕ
creation_flags native flags =
    if has flags 4
    then bit_or native.o_creat native.o_excl
    else if has flags 8
    then bit_or native.o_creat native.o_trunc
    else if has flags 32
    then native.o_creat
    else if has flags 64
    then native.o_trunc
    else 0

pub parse_open_flags : Native → ℕ → ℕ
parse_open_flags native flags =
    let native_flags = creation_flags native flags in
    let rw_flags = bit_and flags 3 in
    if rw_flags == 3
    then bit_or native_flags native.o_rdwr
    else if rw_flags == 1
    then bit_or native_flags native.o_rdonly
    else if rw_flags == 2
    then bit_or native_flags native.o_wronly
    else native_flags

-- what `open` leaves: the descriptor, the error, and the descriptors it closed again
pub record Opened : Type 0 where
  pub fd : Option ℕ
  pub code : Code
  pub closed : List ℕ

-- `set_attributes`, where the system has file flags: what `fchflags` answers is an argument
abbrev pub apply_attrs : ℕ → Answer → ℕ → Opened
apply_attrs attrs (returns r) fd = record { fd = some fd; code = no_error; closed = [] }
apply_attrs attrs (fails e) fd =
    if attrs == 0
    then record { fd = some fd; code = no_error; closed = [] }
    else record { fd = none; code = system e; closed = fd ∷ [] }

module _ (eintr : ℕ) (attrs : ℕ) (fchflags : Answer) where
  pub open_file : List Answer → Option Opened
  open_file [] = none
  open_file (returns fd ∷ answers) = some (apply_attrs attrs fchflags fd)
  open_file (fails e ∷ answers) =
      let again = open_file answers in
      if e == eintr then again else some (record { fd = none; code = system e; closed = [] })

-- the descriptors that an answer has opened
abbrev pub opened_by : Answer → List ℕ
opened_by (returns fd) = fd ∷ []
opened_by (fails e) = []

abbrev pub held : Option ℕ → List ℕ
held none = []
held (some fd) = fd ∷ []

-- However often `open` is interrupted, it comes to an end with the first other answer, and no
-- descriptor leaks: the one that was opened is either returned or closed. Either none is returned
-- and there is an error, or there is no error and none was closed.
pub open_run :
    (eintr attrs k : ℕ) (fchflags a : Answer) (rest : List Answer)
    → a ≢ fails eintr
    → (o : Opened) × (open_file eintr attrs fchflags (interrupted eintr k ++ (a ∷ rest)) ≡ some o)
      × (held o.fd ++ o.closed ≡ opened_by a)
      × (((o.fd ≡ none) × (o.code ≢ no_error)) ⊎ ((o.code ≡ no_error) × (o.closed ≡ [])))
unfolding open_file
open_run eintr attrs zero (returns r) (returns fd) rest h =
    (record { fd = some fd; code = no_error; closed = [] }, refl, refl, inr (refl, refl))
open_run eintr attrs zero (fails e) (returns fd) rest h = elim (Bool-cases (attrs == 0)) [
  | inl plain ↦
      (record { fd = some fd; code = no_error; closed = [] }, rw plain refl, refl, inr (refl, refl))
  | inr wanted ↦ (
    record { fd = none; code = system e; closed = fd ∷ [] },
    rw wanted refl,
    refl,
    inl (refl, λ k. cc),
  )
]
open_run eintr attrs zero f (fails e) rest h = (
  record { fd = none; code = system e; closed = [] },
  rw (not_again eintr e h) refl,
  refl,
  inl (refl, λ k. cc),
)
open_run eintr attrs (suc k) f a rest h =
    let (o, runs, held_is, kind) = open_run eintr attrs k f a rest h in
    (o, rw (same_again eintr) runs, held_is, kind)

-- the descriptor and the error of an answer
abbrev pub opened_as : Answer → Opened
opened_as (returns fd) = record { fd = some fd; code = no_error; closed = [] }
opened_as (fails e) = record { fd = none; code = system e; closed = [] }

-- Without attributes the descriptor of the first other answer is returned, or its error.
pub open_file_as :
    (eintr k : ℕ) (a : Answer) (rest : List Answer)
    → a ≢ fails eintr
    → open_file eintr 0 (returns 0) (interrupted eintr k ++ (a ∷ rest)) ≡ some (opened_as a)
unfolding open_file
open_file_as eintr zero (returns fd) rest h = refl
open_file_as eintr zero (fails e) rest h = rw (not_again eintr e h) refl
open_file_as eintr (suc k) a rest h = rw (same_again eintr) (open_file_as eintr k a rest h)

-- the place of the creation mode's bit, and none for none
abbrev pub creation_digits : ℕ → ℕ
creation_digits flags = (flags / 4) % 32

abbrev one_or_none : ℕ → Bool
one_or_none d = d == 0 || d == 1 || d == 2 || d == 4 || d == 8 || d == 16

-- Flags are valid just where their five creation bits are none or one of the five powers of two.
pub is_valid_lem : (flags : ℕ) → flags < 1024 → is_valid flags ≡ one_or_none (creation_digits flags)
unfolding is_valid
is_valid_lem flags h =
    beq-eq _ _
      (all_below_sound 1024 (λ f. beq (is_valid f) (one_or_none (creation_digits f))) flags refl h)

-- the creation flags of the mode at a place among the five bits
abbrev pub creation_of : Native → ℕ → ℕ
creation_of native d =
    if d == 1
    then bit_or native.o_creat native.o_excl
    else if d == 2
    then bit_or native.o_creat native.o_trunc
    else if d == 8
    then native.o_creat
    else if d == 16
    then native.o_trunc
    else 0

-- the access mode that the two low bits give
abbrev pub access_of : Native → ℕ → ℕ → ℕ
access_of native created d =
    if d == 3
    then bit_or created native.o_rdwr
    else if d == 1
    then bit_or created native.o_rdonly
    else if d == 2
    then bit_or created native.o_wronly
    else created

-- each test on valid flags, by its place
abbrev tests_agree : ℕ → Bool
tests_agree f =
    let d = creation_digits f in
    not (is_valid f)
    || (beq (has f 4) (d == 1)
        && (beq (has f 8) (d == 2)
            && (beq (has f 16) (d == 4)
                && (beq (has f 32) (d == 8)
                    && (beq (has f 64) (d == 16) && bit_and f 3 == f % 4)))))

tests_table : (flags : ℕ) → flags < 1024 → tests_agree flags ≡ true
unfolding is_valid
tests_table flags h = all_below_sound 1024 tests_agree flags refl h

valid_or : (v t : Bool) → (not v || t) ≡ true → v ≡ true → t ≡ true
valid_or v t h e = ground arith

pub tests_lem :
    (flags : ℕ)
    → flags < 1024
    → is_valid flags ≡ true
    → (has flags 4 ≡ (creation_digits flags == 1))
      × (has flags 8 ≡ (creation_digits flags == 2))
      × (has flags 16 ≡ (creation_digits flags == 4))
      × (has flags 32 ≡ (creation_digits flags == 8))
      × (has flags 64 ≡ (creation_digits flags == 16))
      × (bit_and flags 3 ≡ flags % 4)
tests_lem flags h v =
    let (a, s) = and_true _ _ (valid_or (is_valid flags) _ (tests_table flags h) v) in
    let (b, t) = and_true _ _ s in
    let (c, u) = and_true _ _ t in
    let (d, w) = and_true _ _ u in
    let (e, g) = and_true _ _ w in
    (beq-eq _ _ a, beq-eq _ _ b, beq-eq _ _ c, beq-eq _ _ d, beq-eq _ _ e, (==_iff _ _).0 g)

-- Valid flags below 1024 are translated by their fields: the creation mode is the one whose bit is
-- set, whatever the order of the tests, and the access mode is what the two low bits say.
pub parse_open_flags_lem :
    (native : Native) (flags : ℕ)
    → flags < 1024
    → is_valid flags ≡ true
    → parse_open_flags native flags
      ≡ access_of native (creation_of native (creation_digits flags)) (flags % 4)
unfolding parse_open_flags
parse_open_flags_lem native flags h v =
    let (a, b, c, d, e, g) = tests_lem flags h v in rw (a, b, d, e, g) refl
