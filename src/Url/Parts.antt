-- ===== src/Url/Parts.antt =====
-- `parsed_url` of include/asioext/detail/url_parser.hpp and `url_error` of
-- include/asioext/error.hpp. A `std::string_view` is the bytes that it spans.
use asio_extensions.Prelude.{ℕ, Bytes, []}

pub record ParsedUrl : Type 0 where
  pub scheme : Bytes
  pub userinfo : Bytes
  pub host : Bytes
  pub port : Bytes
  pub path : Bytes
  pub query : Bytes
  pub fragment : Bytes
  pub port_value : ℕ

-- a default-constructed `parsed_url`
abbrev pub no_parts : ParsedUrl
no_parts = record {
  scheme = [];
  userinfo = [];
  host = [];
  port = [];
  path = [];
  query = [];
  fragment = [];
  port_value = 0;
}

-- `url_error` without `none`, which is an `error_code` that is not set
pub data UrlError : Type 0 where
  invalid_character missing_host port_overflow : UrlError
