-- ===== src/Socks/PacketsV4.antt =====
-- What a server reads from a request of SOCKS 4 and 4A.
use asio_extensions.Prelude.{
  ℕ, ◌+◌, ◌<◌, ◌^◌, ◌≡◌, ◌≢◌, inl, inr, refl, ap, ◌∙◌, Bool, true, false, ◌&&◌, [], ◌∷◌, ◌++◌,
  Option, none, some, Bytes, length, Bool-cases, all, ◌==◌, if◌then◌else◌, length-append, arith,
  not,
}
use asio_extensions.Socks.Protocol.{
  Command, command_code, Endpoint, port_bytes, get_v4_exec_packet_size, encode_v4_exec_packet,
}
use asio_extensions.Socks.Packets.{IsEndpoint, Target, name, ip4, decode_port, decode_port_bytes}

-- bytes up to a zero, and those behind it
abbrev until_zero : Bytes → Option (Bytes × Bytes)
until_zero [] = none
until_zero (c ∷ cs) =
    let rest = until_zero cs in
    if c == 0 then some ([], cs) else elim rest [ none ↦ none | some (a, b) ↦ some (c ∷ a, b) ]

abbrev not_zero : ℕ → Bool
not_zero c = not (c == 0)

until_zero_lem :
    (v rest : Bytes) → all not_zero v ≡ true → until_zero (v ++ (0 ∷ rest)) ≡ some (v, rest)
until_zero_lem [] rest h = refl
until_zero_lem (c ∷ cs) rest h =
    let other : (c == 0) ≡ false = ground arith in
    let tail = until_zero_lem cs rest (ground arith) in rw (other, tail) refl

pub data Request4 : Type 0 where
  request4 : ℕ → Target → ℕ → Bytes → Request4

-- an address 0.0.0.x with x ≠ 0 says that a host name follows
abbrev is_marker : Bytes → Bool
is_marker (a ∷ b ∷ c ∷ d ∷ []) = a == 0 && (b == 0 && (c == 0 && not (d == 0)))
is_marker _ = false

abbrev decode_host : ℕ → ℕ → Bytes → Option (Bytes × Bytes) → Option Request4
decode_host cmd port user (some (host, [])) = some (request4 cmd (name host) port user)
decode_host cmd port user _ = none

abbrev decode_address4 : ℕ → ℕ → Bytes → Bytes → Bytes → Option Request4
decode_address4 cmd port address user [] = some (request4 cmd (ip4 address) port user)
decode_address4 cmd port address user _ = none

abbrev decode_user : ℕ → ℕ → Bytes → Option (Bytes × Bytes) → Option Request4
decode_user cmd port address none = none
decode_user cmd port address (some (user, rest)) =
    if is_marker address
    then decode_host cmd port user (until_zero rest)
    else decode_address4 cmd port address user rest

abbrev pub decode_v4_exec : Bytes → Option Request4
decode_v4_exec (v ∷ cmd ∷ hi ∷ lo ∷ a ∷ b ∷ c ∷ d ∷ rest) =
    if v == 4
    then decode_user cmd (decode_port (hi ∷ lo ∷ [])) (a ∷ b ∷ c ∷ d ∷ []) (until_zero rest)
    else none
decode_v4_exec _ = none

four_bytes :
    (v : Bytes) → length v ≡ 4 → (a : ℕ) × (b : ℕ) × (c : ℕ) × (d : ℕ) × (v ≡ a ∷ b ∷ c ∷ d ∷ [])
four_bytes (a ∷ b ∷ c ∷ d ∷ []) h = (a, b, c, d, refl)
four_bytes [] h = absurd (omega arith)
four_bytes (_ ∷ []) h = absurd (omega arith)
four_bytes (_ ∷ _ ∷ []) h = absurd (omega arith)
four_bytes (_ ∷ _ ∷ _ ∷ []) h = absurd (omega arith)
four_bytes (_ ∷ _ ∷ _ ∷ _ ∷ _ ∷ _) h = absurd (omega arith)

abbrev wanted4 : Command → Endpoint → Bytes → ℕ → Bytes → Request4
wanted4 cmd remote [] port user = request4 (command_code cmd) (ip4 remote.v4_bytes) port user
wanted4 cmd remote host port user = request4 (command_code cmd) (name host) port user

v4_exec_decoded :
    (cmd : Command) (remote : Endpoint) (host user : Bytes) (port : ℕ)
    → IsEndpoint remote
    → port < 65536
    → is_marker remote.v4_bytes ≡ false
    → all not_zero user ≡ true
    → all not_zero host ≡ true
    → decode_v4_exec (encode_v4_exec_packet cmd remote host port user)
      ≡ some (wanted4 cmd remote host port user)
unfolding encode_v4_exec_packet
v4_exec_decoded cmd remote [] user port v b m u h =
    let (a, b1, c, d, e) = four_bytes remote.v4_bytes v.v4_length in
    let address = a ∷ b1 ∷ c ∷ d ∷ [] in
    let plain : is_marker address ≡ false = rw e at m in
    rw e (
      ap (decode_user (command_code cmd) (decode_port (port_bytes port)) address)
        (until_zero_lem user [] u)
      ∙ rw plain (
          ap (λ (q : ℕ). some (request4 (command_code cmd) (ip4 address) q user))
            (decode_port_bytes port b)))
v4_exec_decoded cmd remote (c ∷ cs) user port v b m u h =
    ap (decode_user (command_code cmd) (decode_port (port_bytes port)) (0 ∷ 0 ∷ 0 ∷ 1 ∷ []))
      (until_zero_lem user ((c ∷ cs) ++ (0 ∷ [])) u)
    ∙ ap (decode_host (command_code cmd) (decode_port (port_bytes port)) user)
        (until_zero_lem (c ∷ cs) [] h)
    ∙ ap (λ (q : ℕ). some (request4 (command_code cmd) (name (c ∷ cs)) q user))
        (decode_port_bytes port b)

v4_exec_size :
    (cmd : Command) (remote : Endpoint) (host user : Bytes) (port : ℕ)
    → IsEndpoint remote
    → length user + length host < 2 ^ 63
    → get_v4_exec_packet_size remote host user ≢ 0
    → length (encode_v4_exec_packet cmd remote host port user)
      ≡ get_v4_exec_packet_size remote host user
unfolding get_v4_exec_packet_size encode_v4_exec_packet
v4_exec_size cmd remote [] user port v l h = elim (Bool-cases remote.is_v4) [
  | inl e ↦ rw e (
      omega (
        arith,
        v.v4_length,
        length-append remote.v4_bytes (user ++ (0 ∷ [])),
        length-append user (0 ∷ []),
      ))
  | inr e ↦ absurd (h (rw e refl))
]
v4_exec_size cmd remote (c ∷ cs) user port v l h =
    omega (arith, length-append user (0 ∷ ((c ∷ cs) ++ (0 ∷ []))), length-append cs (0 ∷ []))

-- A v4 request whose size is not 0, for an endpoint with addresses of 4 and 16 bytes and a port
-- below 65536, fills that size, and the server reads from it the command, the port, the user and
-- the host name or, without a name, the IPv4 address. Neither name nor user has a zero byte, their
-- lengths together stay below 2^63, and the IPv4 address is not one of 0.0.0.1 to 0.0.0.255.
pub v4_exec_round_trip :
    (cmd : Command) (remote : Endpoint) (host user : Bytes) (port : ℕ)
    → IsEndpoint remote
    → port < 65536
    → is_marker remote.v4_bytes ≡ false
    → all not_zero user ≡ true
    → all not_zero host ≡ true
    → length user + length host < 2 ^ 63
    → get_v4_exec_packet_size remote host user ≢ 0
    → (length (encode_v4_exec_packet cmd remote host port user)
        ≡ get_v4_exec_packet_size remote host user)
      × (decode_v4_exec (encode_v4_exec_packet cmd remote host port user)
          ≡ some (wanted4 cmd remote host port user))
v4_exec_round_trip cmd remote host user port v b m u h l size = (
  v4_exec_size cmd remote host user port v l size,
  v4_exec_decoded cmd remote host user port v b m u h,
)
