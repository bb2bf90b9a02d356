-- ===== src/Url/Authority/Port.antt =====
-- The port of an authority: the digit loop of `parse_authority` against the decimal value.
use native.Mathlib.Nat.{pow-suc, mul-le-mul_right}
use asio_extensions.Prelude.{
  ℕ, zero, suc, ◌+◌, ◌-◌, ◌*◌, ◌%◌, ◌^◌, ◌≤◌, ◌<◌, Bool, true, false, ◌&&◌, ◌||◌, ◌≡◌, ◌⊎◌, inl,
  inr, refl, ◌∙◌, ap, [], ◌∷◌, ◌++◌, ltb, leb, if◌then◌else◌, Option, none, some, Bool-cases,
  Option-cases, Bytes, length, take, drop, all, arith, take_all, append-nil, take-append-drop,
  length-take, length-drop, all-take,
}
use asio_extensions.Url.Parts.{ParsedUrl, UrlError, invalid_character, port_overflow}
use asio_extensions.Url.Chars.{within}
use asio_extensions.Url.Authority.{scan_port, view, not_end, parse_port}

abbrev pub is_digit : ℕ → Bool
is_digit c = within b'0' b'9' c

-- The number that a row of digits stands for, each at its power of ten.
unfoldable pub decimal : Bytes → ℕ
decimal [] = 0
decimal (c ∷ cs) = (c - b'0') * 10 ^ length cs + decimal cs

next_fits :
    (acc d p q : ℕ) → q ≡ 10 * p → d ≤ 9 → (acc + 1) * q ≤ 100000 → (acc * 10 + d + 1) * p ≤ 100000
next_fits acc d p q e h l =
    let top : (acc + 1) * (10 * p) ≤ 100000 = rw e at l in
    omega
      (arith, mul-le-mul_right p (let u : acc * 10 + d + 1 ≤ acc * 10 + 10 = omega arith in u), top)

no_wrap : (acc p : ℕ) → 1 ≤ p → (acc + 1) * p ≤ 100000 → acc < 100000
no_wrap acc p h l = grind arith

one-le-pow : (n : ℕ) → 1 ≤ 10 ^ n
one-le-pow zero = omega arith
one-le-pow (suc n) = omega (arith, pow-suc 10 n, one-le-pow n)

-- What the digit loop does with digits: it adds their value, `left` digits at most.
scan_port_digits :
    (left acc : ℕ) (cs rest : Bytes)
    → all is_digit cs ≡ true
    → length cs ≤ left
    → (length cs ≡ left) ⊎ (rest ≡ [])
    → (acc + 1) * 10 ^ left ≤ 100000
    → scan_port left acc (cs ++ rest) ≡ some (acc * 10 ^ length cs + decimal cs, rest)
unfolding scan_port decimal
scan_port_digits zero acc [] rest d l e f = ground arith
scan_port_digits (suc left) acc [] [] d l e f = ground arith
scan_port_digits (suc left) acc [] (r ∷ rest) d l e f = ground arith
scan_port_digits zero acc (c ∷ cs) rest d l e f = absurd (omega arith)
scan_port_digits (suc left) acc (c ∷ cs) rest d l e f =
    let p = 10 ^ left in
    let top : 10 ^ suc left ≡ 10 * p = pow-suc 10 left ∙ omega arith in
    let fits : (acc * 10 + (c - b'0') + 1) * p ≤ 100000 =
      next_fits acc (c - b'0') p (10 ^ suc left) top (ground arith) f in
    let small : acc * 10 + (c - b'0') < 100000 = no_wrap _ p (one-le-pow left) fits in
    let same : (acc * 10 + (c - b'0')) % 2 ^ 32 ≡ acc * 10 + (c - b'0') = omega arith in
    let here : (ltb c b'0' || ltb b'9' c) ≡ false = ground arith in
    let ih =
      scan_port_digits left (acc * 10 + (c - b'0')) cs rest (ground arith) (omega arith)
        (ground arith) fits in
    rw (here, same, ih) (ap (λ (n : ℕ). some (n, rest)) (rw (pow-suc 10 (length cs)) (omega arith)))

-- What the loop read, where it was not refused: digits, up to the end or up to `left` of them.
scan_port_read :
    (left acc : ℕ) (start : Bytes) {port : ℕ} {first : Bytes}
    → scan_port left acc start ≡ some (port, first)
    → (cs : Bytes) × (start ≡ cs ++ first)
      × (all is_digit cs ≡ true)
      × (length cs ≤ left)
      × ((length cs ≡ left) ⊎ (first ≡ []))
unfolding scan_port
scan_port_read zero acc start e = ([], ground arith, refl, omega arith, inl refl)
scan_port_read (suc left) acc [] e = ([], ground arith, refl, omega arith, inr (ground arith))
scan_port_read (suc left) acc (c ∷ cs) {port} {first} e =
    elim (Bool-cases (ltb c b'0' || ltb b'9' c)) [
      | inl bad ↦ cc (rw bad at e)
      | inr good ↦
          let (ds, split, digits, short, stop) = scan_port_read left _ cs (rw good at e) in
          (c ∷ ds, ap (◌∷◌ c) split, ground arith, omega arith, ground arith)
    ]

-- What `parse_port` makes of a row of digits: at most five, and no more than 65535.
abbrev pub port_parts : Bytes → ParsedUrl → ParsedUrl × Option UrlError
port_parts ds out =
    if leb (length ds) 5 && leb (decimal ds) 0xffff
    then (record out { port = ds; port_value = decimal ds }, none)
    else (out, some port_overflow)

view_whole : (ds : Bytes) → view ds [] ≡ ds
view_whole ds = take_all (length ds - 0) ds (omega arith)

not_end_of_pos : (cs : Bytes) → 0 < length cs → not_end cs ≡ true
not_end_of_pos [] h = absurd (omega arith)
not_end_of_pos (c ∷ cs) h = refl

parse_port_short :
    (ds : Bytes) (out : ParsedUrl)
    → all is_digit ds ≡ true
    → length ds ≤ 5
    → parse_port ds out ≡ port_parts ds out
unfolding parse_port
parse_port_short ds out d l =
    let run : scan_port 5 0 (ds ++ []) ≡ some (0 * 10 ^ length ds + decimal ds, []) =
      scan_port_digits 5 0 ds [] d l (inr refl) (omega arith) in
    let whole : scan_port 5 0 ds ≡ some (decimal ds, []) =
      rw append-nil at run ∙ ap (λ (n : ℕ). some (n, [])) (omega arith) in
    let short : leb (length ds) 5 ≡ true = ground arith in
    elim (Bool-cases (leb (decimal ds) 0xffff)) [
      | inl small ↦
          let fits : ltb 0xffff (decimal ds) ≡ false = ground arith in
          let same : decimal ds % 2 ^ 16 ≡ decimal ds = ground arith in
          rw (whole, parse_port, fits, short, small, view_whole, same)
      | inr big ↦
          let over : ltb 0xffff (decimal ds) ≡ true = ground arith in
          rw (whole, parse_port, over, short, big)
    ]

parse_port_long :
    (ds : Bytes) (out : ParsedUrl)
    → all is_digit ds ≡ true
    → 5 < length ds
    → parse_port ds out ≡ port_parts ds out
unfolding parse_port
parse_port_long ds out d l =
    let split = take-append-drop 5 ds in
    let digits : all is_digit (take 5 ds) ≡ true = all-take is_digit 5 ds d in
    let run =
      scan_port_digits 5 0 (take 5 ds) (drop 5 ds) digits (omega (arith, length-take 5 ds))
        (inl (omega (arith, length-take 5 ds))) (omega arith) in
    let whole = rw split at run in
    rw (whole, parse_port) (ground (arith, length-drop 5 ds, not_end_of_pos (drop 5 ds)))

pub parse_port_digits :
    (ds : Bytes) (out : ParsedUrl) → all is_digit ds ≡ true → parse_port ds out ≡ port_parts ds out
parse_port_digits ds out d = elim (Bool-cases (leb (length ds) 5)) [
  | inl short ↦ parse_port_short ds out d (ground arith)
  | inr long ↦ parse_port_long ds out d (ground arith)
]

left_over :
    (start cs first : Bytes)
    → start ≡ cs ++ first
    → all is_digit start ≡ false
    → all is_digit cs ≡ true
    → not_end first ≡ true
left_over start cs [] e no_digits digits = cc (rw (e ∙ append-nil cs) at no_digits)
left_over start cs (f ∷ first) e no_digits digits = refl

-- A port of digits is taken if it has at most five of them and is at most 65535, and is refused
-- with `port_overflow` otherwise; any other port is refused.
pub parse_port_result :
    (start : Bytes) (out : ParsedUrl)
    → ((all is_digit start ≡ true) × (parse_port start out ≡ port_parts start out))
      ⊎ ((all is_digit start ≡ false)
          × ((parse_port start out ≡ (out, some invalid_character))
              ⊎ (parse_port start out ≡ (out, some port_overflow))))
unfolding parse_port
parse_port_result start out = elim (Bool-cases (all is_digit start)) [
  | inl digits ↦ inl (digits, parse_port_digits start out digits)
  | inr other ↦ elim (Option-cases (scan_port 5 0 start)) [
    | inl bad ↦ inr (other, inl (rw (bad, parse_port)))
    | inr ((port, first), run) ↦
        let (cs, split, digits, l, stop) = scan_port_read 5 0 start run in
        let more : (ltb 0xffff port || not_end first) ≡ true =
          ground (arith, left_over start cs first split other digits) in
        inr (other, inr (rw (run, parse_port, more)))
  ]
]
