-- ===== src/Url/Chars.antt =====
-- The character classes at the top of include/asioext/detail/impl/url_parser.cpp. A `switch` over
-- characters is a search in the list of its labels.
use Prim.Native.Nat.{bit_or}
use asio_extensions.Prelude.{
  ℕ, Bool, false, ◌&&◌, ◌||◌, ◌≡◌, ◌<◌, refl, [], ◌∷◌, ◌==◌, leb, all_below_sound, beq, beq-eq,
  Bytes,
}

-- a `switch` with these labels that returns true
abbrev is_label : ℕ → Bytes → Bool
is_label c [] = false
is_label c (l ∷ ls) = c == l || is_label c ls

unfoldable pub is_alpha : ℕ → Bool
is_alpha ch = let lower = bit_or ch 32 in leb lower b'z' && leb b'a' lower

unfoldable pub is_alnum : ℕ → Bool
unfolding is_alpha
is_alnum ch = is_alpha ch || (leb b'0' ch && leb ch b'9')

abbrev is_space : ℕ → Bool
is_space ch = is_label ch (b' ' ∷ 12 ∷ b'\n' ∷ b'\r' ∷ b'\t' ∷ 11 ∷ [])

unfoldable pub is_mark : ℕ → Bool
is_mark c = is_label c (b'-' ∷ b'_' ∷ b'.' ∷ b'!' ∷ b'~' ∷ b'*' ∷ b'\'' ∷ b'(' ∷ b')' ∷ [])

unfoldable pub is_user_char : ℕ → Bool
unfolding is_alnum is_mark
is_user_char c =
    is_label c (b'%' ∷ b';' ∷ b':' ∷ b'&' ∷ b'=' ∷ b'+' ∷ b'$' ∷ b',' ∷ [])
    || (is_alnum c || is_mark c)

unfoldable pub is_hex : ℕ → Bool
is_hex ch =
    let lower = bit_or ch 32 in (leb b'0' ch && leb ch b'9') || (leb b'a' lower && leb lower b'f')

abbrev url_chars : Bytes
url_chars =
    9 ∷ 12 ∷ 33 ∷ 34 ∷ 36 ∷ 37 ∷ 38 ∷ 39 ∷ 40 ∷ 41 ∷ 42 ∷ 43 ∷ 44 ∷ 45 ∷ 46 ∷ 47 ∷ 48 ∷ 49 ∷ 50 ∷ 51
    ∷ 52 ∷ 53 ∷ 54 ∷ 55 ∷ 56 ∷ 57 ∷ 58 ∷ 59 ∷ 60 ∷ 61 ∷ 62 ∷ 64 ∷ 65 ∷ 66 ∷ 67 ∷ 68 ∷ 69 ∷ 70 ∷ 71
    ∷ 72 ∷ 73 ∷ 74 ∷ 75 ∷ 76 ∷ 77 ∷ 78 ∷ 79 ∷ 80 ∷ 81 ∷ 82 ∷ 83 ∷ 84 ∷ 85 ∷ 86 ∷ 87 ∷ 88 ∷ 89 ∷ 90
    ∷ 91 ∷ 92 ∷ 93 ∷ 94 ∷ 95 ∷ 96 ∷ 97 ∷ 98 ∷ 99 ∷ 100 ∷ 101 ∷ 102 ∷ 103 ∷ 104 ∷ 105 ∷ 106 ∷ 107
    ∷ 108 ∷ 109 ∷ 110 ∷ 111 ∷ 112 ∷ 113 ∷ 114 ∷ 115 ∷ 116 ∷ 117 ∷ 118 ∷ 119 ∷ 120 ∷ 121 ∷ 122 ∷ 123
    ∷ 124 ∷ 125 ∷ 126 ∷ []

unfoldable pub is_url_char : ℕ → Bool
is_url_char ch = is_label ch url_chars

-- ranges of codes, as the grammar of RFC 3986 names them
abbrev pub within : ℕ → ℕ → ℕ → Bool
within lo hi c = leb lo c && leb c hi

abbrev letter : ℕ → Bool
letter c = within b'A' b'Z' c || within b'a' b'z' c

abbrev digit : ℕ → Bool
digit c = within b'0' b'9' c

-- For a byte, the tests that clear the case bit with `| 32` and the long `switch` decide what they
-- are named for: letters, letters and digits, hexadecimal digits, and the printable characters but
-- the space, `#`, `?` and the delete character, with the tab and the form feed.
pub classes_lem :
    (c : ℕ)
    → c < 256
    → (is_alpha c ≡ letter c)
      × (is_alnum c ≡ (letter c || digit c))
      × (is_hex c ≡ (digit c || within b'A' b'F' c || within b'a' b'f' c))
      × (is_url_char c ≡ (c == 9 || c == 12 || within 33 34 c || within 36 62 c || within 64 126 c))
unfolding is_alpha is_alnum is_hex is_url_char
classes_lem c h = (
  beq-eq _ _ (all_below_sound 256 (λ x. beq (is_alpha x) (letter x)) c refl h),
  beq-eq _ _ (all_below_sound 256 (λ x. beq (is_alnum x) (letter x || digit x)) c refl h),
  beq-eq _ _ (
      all_below_sound 256
        (λ x. beq (is_hex x) (digit x || within b'A' b'F' x || within b'a' b'f' x)) c refl h),
  beq-eq _ _ (
      all_below_sound 256
        (λ x.
          beq (is_url_char x)
            (x == 9 || x == 12 || within 33 34 x || within 36 62 x || within 64 126 x))
        c refl h),
)
