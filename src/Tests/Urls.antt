-- ===== src/Tests/Urls.antt =====
-- Theorems on the URL parser at small texts.
use asio_extensions.Prelude.{
  ℕ, ◌≡◌, ◌||◌, inl, refl, true, [], ◌∷◌, ◌==◌, none, some, Bytes, all, arith,
}
use asio_extensions.Url.Parts.{ParsedUrl, no_parts}
use asio_extensions.Url.Chars.{
  is_alpha, is_alnum, is_hex, is_mark, is_user_char, is_url_char, classes_lem,
}
use asio_extensions.Url.Authority.{parse_authority}
use asio_extensions.Url.Authority.Port.{decimal, port_parts}
use asio_extensions.Url.Authority.Split.{AuthoritySplit, parse_authority-AuthoritySplit}
use asio_extensions.Url.Authority.Join.{IsName, parse_authority_join}
use asio_extensions.Url.Parser.{parse_url}
use asio_extensions.Url.Walk.{begin, walk}
use asio_extensions.Url.Walk.Refine.{parse_url-eq-walk}
use asio_extensions.Url.View.{
  UrlView, view_of, url_view, port, port_value, url_view-walk, port_value-decimal,
}
use asio_extensions.Url.Walk.RoundTrip.{Components, IsComponents, url_text, parse_url_round_trip}

-- `u@h:80`
abbrev small_authority : Bytes
small_authority = b'u' ∷ b'@' ∷ b'h' ∷ b':' ∷ b'8' ∷ b'0' ∷ []

-- `s://u@h:80/p?q#f`
abbrev small : Components
small = record {
  letter = b's';
  scheme_rest = [];
  user = b'u' ∷ [];
  name = b'h' ∷ [];
  digits = b'8' ∷ b'0' ∷ [];
  path_rest = b'p' ∷ [];
  query = b'q' ∷ [];
  fragment = b'f' ∷ [];
}

small-IsComponents : IsComponents small
unfolding is_alpha is_alnum is_user_char is_mark is_url_char
small-IsComponents = record {
  letter_alpha = refl;
  scheme_chars = refl;
  user_chars = refl;
  name_is = (λ e. cc, refl);
  digit_chars = refl;
  path_chars = refl;
  query_chars = refl;
  fragment_chars = refl;
}

parse_url-eq-walk_example :
    parse_url small_authority no_parts ≡ some (walk (begin no_parts) small_authority)
parse_url-eq-walk_example = parse_url-eq-walk small_authority no_parts

parse_url_round_trip_example :
    parse_url (url_text small) no_parts
    ≡ some (
        port_parts (b'8' ∷ b'0' ∷ []) (record no_parts {
          scheme = b's' ∷ [];
          userinfo = b'u' ∷ [];
          host = b'h' ∷ [];
          path = b'/' ∷ b'p' ∷ [];
          query = b'q' ∷ [];
          fragment = b'f' ∷ [];
        }))
parse_url_round_trip_example = parse_url_round_trip small small-IsComponents

h-IsName : IsName (b'h' ∷ [])
unfolding is_alnum is_alpha
h-IsName = (λ e. cc, refl)

user_chars : all is_user_char (b'u' ∷ []) ≡ true
unfolding is_alnum is_alpha is_user_char is_mark
user_chars = refl

parse_authority_join_example :
    parse_authority small_authority true no_parts
    ≡ port_parts (b'8' ∷ b'0' ∷ []) (record no_parts { userinfo = b'u' ∷ []; host = b'h' ∷ [] })
parse_authority_join_example =
    parse_authority_join (b'u' ∷ []) (b'h' ∷ []) (b'8' ∷ b'0' ∷ []) no_parts user_chars h-IsName
      refl

abbrev accepted_parts : ParsedUrl
accepted_parts = record no_parts {
  userinfo = b'u' ∷ [];
  host = b'h' ∷ [];
  port = b'8' ∷ b'0' ∷ [];
  port_value = 80;
}

accepted : parse_authority small_authority true no_parts ≡ (accepted_parts, none)
unfolding decimal
accepted =
    parse_authority_join (b'u' ∷ []) (b'h' ∷ []) (b'8' ∷ b'0' ∷ []) no_parts user_chars h-IsName
      refl

parse_authority-AuthoritySplit_example : AuthoritySplit small_authority true no_parts accepted_parts
parse_authority-AuthoritySplit_example =
    parse_authority-AuthoritySplit small_authority true no_parts {res = accepted_parts} accepted

hex_chars : all (λ (c : ℕ). is_hex c || c == b':' || c == b'.') (b':' ∷ b'1' ∷ []) ≡ true
unfolding is_hex
hex_chars = refl

classes_lem_example :
    (is_alpha 65 ≡ true) × (is_alnum 65 ≡ true) × (is_hex 65 ≡ true) × (is_url_char 65 ≡ true)
classes_lem_example = classes_lem 65 (omega arith)

url_view-walk_example :
    url_view small_authority
    ≡ some (view_of small_authority (walk (begin no_parts) small_authority))
url_view-walk_example = url_view-walk small_authority

-- `ftp:` with no port
abbrev ftp_view : UrlView
ftp_view = record {
  spec = b'f' ∷ b't' ∷ b'p' ∷ b':' ∷ [];
  url = record no_parts { scheme = b'f' ∷ b't' ∷ b'p' ∷ [] };
}

port_value-decimal_example : port_value ftp_view ≡ decimal (port ftp_view)
port_value-decimal_example = port_value-decimal ftp_view (inl refl)
