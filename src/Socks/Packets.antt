-- ===== src/Socks/Packets.antt =====
-- What a server reads from the packets: decoders after RFC 1928, RFC 1929 and the SOCKS 4A memo.
use asio_extensions.Prelude.{
  ℕ, ◌+◌, ◌*◌, ◌≤◌, ◌<◌, ◌%◌, ◌≡◌, ◌≢◌, inl, inr, refl, ap, ◌∙◌, true, ◌&&◌, [], ◌∷◌, ◌++◌,
  append-nil, Option, none, some, Bytes, length, ltb, Bool-cases, take, drop, ◌==◌, ==_iff,
  if◌then◌else◌, length-append, take-append_right, drop-append_right, arith,
}
use asio_extensions.Socks.Protocol.{
  Command, command_code, Endpoint, port_bytes, get_greet_packet_size, encode_greet_packet,
  get_login_packet_size, encode_login_packet, get_v5_exec_packet_size, encode_v5_exec_packet,
}

-- the two families' addresses have 4 and 16 bytes, and a port two
pub record IsEndpoint (e : Endpoint) : Type 0 where
  pub v4_length : length e.v4_bytes ≡ 4
  pub v6_length : length e.v6_bytes ≡ 16
  pub port_bound : e.port < 65536

-- where a request leads to
pub data Target : Type 0 where
  name : Bytes → Target
  ip4 ip6 : Bytes → Target

pub data Request : Type 0 where
  request : ℕ → Target → ℕ → Request

abbrev pub decode_port : Bytes → ℕ
decode_port (hi ∷ lo ∷ rest) = hi * 256 + lo
decode_port _ = 0

-- an address of `n` bytes with a port behind it
abbrev decode_address : ℕ → (Bytes → Target) → ℕ → Bytes → Option Request
decode_address n make cmd rest =
    if length rest == n + 2
    then some (request cmd (make (take n rest)) (decode_port (drop n rest)))
    else none

abbrev decode_name : ℕ → Bytes → Option Request
decode_name cmd [] = none
decode_name cmd (n ∷ rest) = decode_address n name cmd rest

abbrev decode_target : ℕ → ℕ → Bytes → Option Request
decode_target cmd kind rest =
    if kind == 1
    then decode_address 4 ip4 cmd rest
    else if kind == 3
    then decode_name cmd rest
    else if kind == 4
    then decode_address 16 ip6 cmd rest
    else none

-- a request of RFC 1928
abbrev pub decode_v5_exec : Bytes → Option Request
decode_v5_exec (v ∷ cmd ∷ r ∷ kind ∷ rest) =
    if v == 5 && r == 0 then decode_target cmd kind rest else none
decode_v5_exec _ = none

pub decode_port_bytes : (p : ℕ) → p < 65536 → decode_port (port_bytes p) ≡ p
decode_port_bytes p h = omega arith

decode_address_lem :
    (n : ℕ) (make : Bytes → Target) (cmd : ℕ) (a : Bytes) (p : ℕ)
    → length a ≡ n
    → p < 65536
    → decode_address n make cmd (a ++ port_bytes p) ≡ some (request cmd (make a) p)
decode_address_lem n make cmd a p h b =
    let fits : (length (a ++ port_bytes p) == n + 2) ≡ true =
      (==_iff _ _).1 (omega (arith, length-append a (port_bytes p))) in
    let address : take n (a ++ port_bytes p) ≡ a =
      take-append_right n 0 a (port_bytes p) (omega arith) ∙ append-nil a in
    let port : drop n (a ++ port_bytes p) ≡ port_bytes p =
      drop-append_right n 0 a (port_bytes p) (omega arith) in
    rw (fits, address, port) (ap (λ (q : ℕ). some (request cmd (make a) q)) (decode_port_bytes p b))

-- what a call of the v5 encoder asks for
abbrev wanted : Command → Endpoint → Bytes → ℕ → Request
wanted cmd remote [] port =
    request (command_code cmd) (if remote.is_v4 then ip4 remote.v4_bytes else ip6 remote.v6_bytes)
      remote.port
wanted cmd remote host port = request (command_code cmd) (name host) port

pub name_size : (host : Bytes) (port : ℕ) → length (host ++ port_bytes port) ≡ length host + 2
name_size host port = omega (arith, length-append host (port_bytes port))

-- A v5 request whose size is not 0, for an endpoint with addresses of 4 and 16 bytes and a port
-- below 65536, fills that size, and the server reads from it the command, the host name with the
-- port, or, without a name, the endpoint's address with the endpoint's own port.
pub v5_exec_round_trip :
    (cmd : Command) (remote : Endpoint) (host : Bytes) (port : ℕ)
    → IsEndpoint remote
    → port < 65536
    → get_v5_exec_packet_size remote host ≢ 0
    → (length (encode_v5_exec_packet cmd remote host port) ≡ get_v5_exec_packet_size remote host)
      × (decode_v5_exec (encode_v5_exec_packet cmd remote host port)
          ≡ some (wanted cmd remote host port))
unfolding get_v5_exec_packet_size encode_v5_exec_packet
v5_exec_round_trip cmd remote [] port v b h = elim (Bool-cases remote.is_v4) [
  | inl e ↦ rw e (
    omega (arith, v.v4_length, name_size remote.v4_bytes remote.port),
    decode_address_lem 4 ip4 (command_code cmd) remote.v4_bytes remote.port v.v4_length
        v.port_bound,
  )
  | inr e ↦ rw e (
    omega (arith, v.v6_length, name_size remote.v6_bytes remote.port),
    decode_address_lem 16 ip6 (command_code cmd) remote.v6_bytes remote.port v.v6_length
        v.port_bound,
  )
]
v5_exec_round_trip cmd remote (c ∷ cs) port v b h = elim (Bool-cases (ltb 255 (length (c ∷ cs)))) [
  | inl long ↦ absurd (h (rw long refl))
  | inr short ↦
      let fits : length (c ∷ cs) % 256 ≡ length (c ∷ cs) = ground arith in
      rw (short, fits)
        (
          omega (arith, name_size (c ∷ cs) port),
          decode_address_lem (length (c ∷ cs)) name (command_code cmd) (c ∷ cs) port refl b,
        )
]

-- a login of RFC 1929
abbrev decode_password : Bytes → Bytes → Option (Bytes × Bytes)
decode_password user [] = none
decode_password user (n ∷ rest) = if length rest == n then some (user, rest) else none

abbrev pub decode_login : Bytes → Option (Bytes × Bytes)
decode_login (v ∷ n ∷ rest) = if v == 1 then decode_password (take n rest) (drop n rest) else none
decode_login _ = none

login_sizes :
    (user password : Bytes)
    → get_login_packet_size user password ≢ 0
    → (length user ≤ 255)
      × (length password ≤ 255)
      × (get_login_packet_size user password ≡ length user + length password + 3)
unfolding get_login_packet_size
login_sizes user password h = ground arith

-- A login packet fills the size that was computed for it, and the server reads back the user's name
-- and the password.
pub login_round_trip :
    (user password : Bytes)
    → get_login_packet_size user password ≢ 0
    → (length (encode_login_packet user password) ≡ get_login_packet_size user password)
      × (decode_login (encode_login_packet user password) ≡ some (user, password))
unfolding encode_login_packet
login_round_trip user password h =
    let (u, p, size) = login_sizes user password h in
    let user_fits : length user % 256 ≡ length user = omega arith in
    let password_fits : length password % 256 ≡ length password = omega arith in
    let tail = length password ∷ password in
    let front : take (length user) (user ++ tail) ≡ user =
      take-append_right (length user) 0 user tail (omega arith) ∙ append-nil user in
    let back : drop (length user) (user ++ tail) ≡ tail =
      drop-append_right (length user) 0 user tail (omega arith) in
    let same : (length password == length password) ≡ true = (==_iff _ _).1 refl in
    (
      omega (arith, size, length-append user ((length password % 256) ∷ password)),
      rw (user_fits, password_fits, front, back, same) refl,
    )

-- a greeting of RFC 1928
abbrev pub decode_greet : Bytes → Option Bytes
decode_greet (v ∷ n ∷ methods) = if v == 5 && n == length methods then some methods else none
decode_greet _ = none

-- A greeting fills the size that was computed for it, and the server reads the same methods.
pub greet_round_trip :
    (methods : Bytes)
    → get_greet_packet_size methods ≢ 0
    → (length (encode_greet_packet methods) ≡ get_greet_packet_size methods)
      × (decode_greet (encode_greet_packet methods) ≡ some methods)
unfolding get_greet_packet_size encode_greet_packet
greet_round_trip methods h = ground arith
