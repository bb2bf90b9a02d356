-- ===== src/Url/Walk.antt =====
-- A specification of `parse_url` with no pointers: one pass over the bytes, which keeps the word that
-- is being read. `Refine` compares it with the loop of the source.
pub mod Rounds
pub mod Refine
pub mod Segments
pub mod RoundTrip
use asio_extensions.Prelude.{
  ℕ, Bool, true, false, List, [], ◌∷◌, ◌++◌, if◌then◌else◌, Option, none, some, Bytes,
}
use asio_extensions.Url.Parts.{ParsedUrl, UrlError, invalid_character}
use asio_extensions.Url.State.{
  UrlState, invalid, initial, authority_with_at, path_after_scheme, path, get_state_for, Part,
  path_part, part_from_state, store_part, same_part,
}
use asio_extensions.Url.Authority.{Parsed}
use asio_extensions.Url.Parser.{split_host}

pub record Walk : Type 0 where
  pub s : UrlState
  pub has_userinfo : Bool
  pub part : Option Part
  pub word : Bytes
  pub out : ParsedUrl

abbrev pub begin : ParsedUrl → Walk
begin out = record { s = initial; has_userinfo = false; part = none; word = []; out = out }

abbrev pub close_word : Option Part → Bytes → ParsedUrl → ParsedUrl
close_word none word out = out
close_word (some part) word out = store_part part word out

abbrev pub saw_at : UrlState → Bool → Bool
saw_at authority_with_at has = true
saw_at _ has = has

-- the byte `ch` is read into state `n`
abbrev pub advance : UrlState → Walk → ℕ → Walk
advance n w ch =
    let part = part_from_state n in
    if same_part part w.part
    then record w { s = n; has_userinfo = saw_at n w.has_userinfo; word = w.word ++ (ch ∷ []) }
    else record {
      s = n;
      has_userinfo = saw_at n w.has_userinfo;
      part = part;
      word = ch ∷ [];
      out = close_word w.part w.word w.out;
    }

-- The path of `scheme:/path` begins with the slash before `ch`.
abbrev pub arrive : UrlState → Walk → ℕ → Option Walk
arrive invalid w ch = none
arrive path_after_scheme w ch =
    some (record w { s = path; part = some path_part; word = b'/' ∷ ch ∷ [] })
arrive n w ch = some (advance n w ch)

abbrev pub walk_step : Walk → ℕ → Option Walk
walk_step w ch = arrive (get_state_for w.s ch) w ch

abbrev conclude : Walk → Parsed
conclude w = split_host w.has_userinfo (close_word w.part w.word w.out)

pub walk : Walk → Bytes → Parsed
walk w [] = conclude w
walk w (ch ∷ rest) = elim (walk_step w ch) [
  | none ↦ (w.out, some invalid_character)
  | some v ↦ walk v rest
]
