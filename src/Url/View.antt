-- ===== src/Url/View.antt =====
-- `url_view` of include/asioext/impl/url_view.cpp: a text with the parts that `parse_url` found in it.
use asio_extensions.Prelude.{
  ℕ, ◌≡◌, ◌⊎◌, inl, inr, refl, Bool, true, false, ◌&&◌, [], ◌∷◌, ◌==◌, if◌then◌else◌, Bool-cases,
  Option, none, some, Bytes,
}
use asio_extensions.Url.Parts.{ParsedUrl, no_parts, UrlError}
use asio_extensions.Url.Authority.{Parsed}
use asio_extensions.Url.Authority.Port.{decimal}
use asio_extensions.Url.Parser.{parse_url}
use asio_extensions.Url.Walk.{begin, walk}
use asio_extensions.Url.Walk.Refine.{parse_url-eq-walk}

pub record UrlView : Type 0 where
  pub spec : Bytes
  pub url : ParsedUrl

-- comparison of a `std::string_view` with a literal
same_bytes : Bytes → Bytes → Bool
same_bytes [] [] = true
same_bytes (a ∷ cs) (b ∷ ds) = a == b && same_bytes cs ds
same_bytes _ _ = false

-- the outcome of the parser: on an error the text is dropped, and the parts stay as they were left
abbrev pub view_of : Bytes → Parsed → UrlView × Option UrlError
view_of s (out, none) = (record { spec = s; url = out }, none)
view_of s (out, some e) = (record { spec = []; url = out }, some e)

-- the constructor with an `error_code`; `none` is the parser's fuel that ran out
pub url_view : Bytes → Option (UrlView × Option UrlError)
url_view s = elim (parse_url s no_parts) [ none ↦ none | some r ↦ some (view_of s r) ]

abbrev is_http : UrlView → Bool
is_http v = same_bytes v.url.scheme (b'h' ∷ b't' ∷ b't' ∷ b'p' ∷ [])

abbrev is_https : UrlView → Bool
is_https v = same_bytes v.url.scheme (b'h' ∷ b't' ∷ b't' ∷ b'p' ∷ b's' ∷ [])

abbrev is_ftp : UrlView → Bool
is_ftp v = same_bytes v.url.scheme (b'f' ∷ b't' ∷ b'p' ∷ [])

-- the end of `port`, behind `if (!url_.port.empty())`
abbrev default_port : UrlView → Bytes
default_port v =
    if is_http v
    then b'8' ∷ b'0' ∷ []
    else if is_https v
    then b'4' ∷ b'4' ∷ b'3' ∷ []
    else if is_ftp v
    then b'2' ∷ b'1' ∷ []
    else []

abbrev default_port_value : UrlView → ℕ
default_port_value v =
    if is_http v then 80 else if is_https v then 443 else if is_ftp v then 21 else 0

abbrev stored_or {ℓ} : {A : Type ℓ} → Bytes → A → A → A
stored_or [] stored other = other
stored_or (c ∷ cs) stored other = stored

pub port : UrlView → Bytes
unfolding same_bytes
port v = stored_or v.url.port v.url.port (default_port v)

pub port_value : UrlView → ℕ
unfolding same_bytes
port_value v = stored_or v.url.port v.url.port_value (default_port_value v)

-- The constructor always comes to an end: it holds the text and its parts, or, on an error, no text.
pub url_view-walk : (s : Bytes) → url_view s ≡ some (view_of s (walk (begin no_parts) s))
unfolding url_view
url_view-walk s = rw (parse_url-eq-walk s no_parts, url_view) refl

defaults : (v : UrlView) → default_port_value v ≡ decimal (default_port v)
unfolding decimal same_bytes
defaults v = elim (Bool-cases (is_http v)) [
  | inl http ↦ rw http refl
  | inr other ↦ elim (Bool-cases (is_https v)) [
    | inl https ↦ rw (other, https) refl
    | inr third ↦ elim (Bool-cases (is_ftp v)) [
      | inl ftp ↦ rw (other, third, ftp) refl
      | inr none_of ↦ rw (other, third, none_of) refl
    ]
  ]
]

stored_or-decimal :
    (p d : Bytes) (a b : ℕ)
    → a ≡ decimal p
    → b ≡ decimal d
    → stored_or p a b ≡ decimal (stored_or p p d)
stored_or-decimal [] d a b h k = k
stored_or-decimal (c ∷ cs) d a b h k = h

-- `port_value` is the number that `port` writes, the defaults of the schemes included, where the parts
-- hold no port or its value, as the parser leaves them.
pub port_value-decimal :
    (v : UrlView)
    → (v.url.port ≡ []) ⊎ (v.url.port_value ≡ decimal v.url.port)
    → port_value v ≡ decimal (port v)
unfolding port port_value
port_value-decimal v (inl e) = rw e (defaults v)
port_value-decimal v (inr e) =
    stored_or-decimal v.url.port (default_port v) v.url.port_value (default_port_value v) e
      (defaults v)
