-- ===== src/Tests/Socks.antt =====
-- Theorems on the SOCKS packets and operations at small inputs.
use asio_extensions.Prelude.{
  ℕ, ◌+◌, ◌<◌, ◌≤◌, ◌≡◌, ◌≢◌, ◌⊎◌, inr, refl, true, [], ◌∷◌, ◌++◌, some, Bytes, length, get_or,
  arith,
}
use asio_extensions.Socks.Protocol.{
  connect, Endpoint, get_v4_exec_packet_size, encode_v4_exec_packet, get_greet_packet_size,
  encode_greet_packet, get_login_packet_size, encode_login_packet, get_v5_exec_packet_size,
  encode_v5_exec_packet,
}
use asio_extensions.Socks.Packets.{
  IsEndpoint, request, name, decode_login, decode_greet, decode_v5_exec, login_round_trip,
  greet_round_trip, v5_exec_round_trip,
}
use asio_extensions.Socks.PacketsV4.{request4, decode_v4_exec, v4_exec_round_trip}
use asio_extensions.Socks.Client.{
  ErrorCode, success, invalid_argument, invalid_version, v5_login_op, v5_login_resume, v5_exec_op,
  v5_exec_resume, v4_exec_op, v4_exec_resume, v4_exec_packet,
}
use asio_extensions.Socks.Exchange.{run_op}
use asio_extensions.Socks.Sessions.{LoginReply, login_run}
use asio_extensions.Socks.ExecSessions.{
  name_address, exec_run_accepted, Reported, exec_run_refused, v4_exec_op_packet, v4_exec_run,
}

-- 10.0.0.1:80
abbrev remote : Endpoint
remote = record {
  is_v4 = true;
  v4_bytes = 10 ∷ 0 ∷ 0 ∷ 1 ∷ [];
  v6_bytes = 0 ∷ 0 ∷ 0 ∷ 0 ∷ 0 ∷ 0 ∷ 0 ∷ 0 ∷ 0 ∷ 0 ∷ 0 ∷ 0 ∷ 0 ∷ 0 ∷ 0 ∷ 0 ∷ [];
  port = 80;
}

remote-IsEndpoint : IsEndpoint remote
remote-IsEndpoint = record { v4_length = refl; v6_length = refl; port_bound = omega arith }

login_fits : get_login_packet_size (1 ∷ 2 ∷ []) (3 ∷ []) ≢ 0
unfolding get_login_packet_size
login_fits e = omega arith

greet_fits : get_greet_packet_size (0 ∷ 2 ∷ []) ≢ 0
unfolding get_greet_packet_size
greet_fits e = omega arith

exec_fits : get_v5_exec_packet_size remote (b'h' ∷ []) ≢ 0
unfolding get_v5_exec_packet_size
exec_fits e = omega arith

v4_exec_fits : get_v4_exec_packet_size remote (b'h' ∷ []) (b'u' ∷ []) ≢ 0
unfolding get_v4_exec_packet_size
v4_exec_fits e = omega arith

login_round_trip_example :
    (length (encode_login_packet (1 ∷ 2 ∷ []) (3 ∷ []))
      ≡ get_login_packet_size (1 ∷ 2 ∷ []) (3 ∷ []))
    × (decode_login (encode_login_packet (1 ∷ 2 ∷ []) (3 ∷ [])) ≡ some (1 ∷ 2 ∷ [], 3 ∷ []))
login_round_trip_example = login_round_trip (1 ∷ 2 ∷ []) (3 ∷ []) login_fits

greet_round_trip_example :
    (length (encode_greet_packet (0 ∷ 2 ∷ [])) ≡ get_greet_packet_size (0 ∷ 2 ∷ []))
    × (decode_greet (encode_greet_packet (0 ∷ 2 ∷ [])) ≡ some (0 ∷ 2 ∷ []))
greet_round_trip_example = greet_round_trip (0 ∷ 2 ∷ []) greet_fits

v5_exec_round_trip_example :
    (length (encode_v5_exec_packet connect remote (b'h' ∷ []) 443)
      ≡ get_v5_exec_packet_size remote (b'h' ∷ []))
    × (decode_v5_exec (encode_v5_exec_packet connect remote (b'h' ∷ []) 443)
        ≡ some (request 1 (name (b'h' ∷ [])) 443))
v5_exec_round_trip_example =
    v5_exec_round_trip connect remote (b'h' ∷ []) 443 remote-IsEndpoint (omega arith) exec_fits

v4_exec_round_trip_example :
    (length (encode_v4_exec_packet connect remote (b'h' ∷ []) 443 (b'u' ∷ []))
      ≡ get_v4_exec_packet_size remote (b'h' ∷ []) (b'u' ∷ []))
    × (decode_v4_exec (encode_v4_exec_packet connect remote (b'h' ∷ []) 443 (b'u' ∷ []))
        ≡ some (request4 1 (name (b'h' ∷ [])) 443 (b'u' ∷ [])))
v4_exec_round_trip_example =
    v4_exec_round_trip connect remote (b'h' ∷ []) (b'u' ∷ []) 443 remote-IsEndpoint (omega arith)
      refl refl refl (omega arith) v4_exec_fits

login_run_example :
    ((2 ≤ 255)
      × (1 ≤ 255)
      × ((ec : ErrorCode) × (rest : Bytes) × LoginReply (1 ∷ 0 ∷ 7 ∷ []) ec rest
          × (run_op v5_login_resume (v5_login_op (1 ∷ 2 ∷ []) (3 ∷ []) [] []) (1 ∷ 0 ∷ 7 ∷ [])
              ≡ some (record { result = ec; sent = 1 ∷ 2 ∷ 1 ∷ 2 ∷ 1 ∷ 3 ∷ []; unread = rest }))))
    ⊎ (((255 < 2) ⊎ (255 < 1))
        × (run_op v5_login_resume (v5_login_op (1 ∷ 2 ∷ []) (3 ∷ []) [] []) (1 ∷ 0 ∷ 7 ∷ [])
            ≡ some (record { result = invalid_argument; sent = []; unread = 1 ∷ 0 ∷ 7 ∷ [] })))
login_run_example = login_run (1 ∷ 2 ∷ []) (3 ∷ []) [] (1 ∷ 0 ∷ 7 ∷ [])

-- a reply with a host name of two bytes, and a byte behind it
exec_run_accepted_example :
    run_op v5_exec_resume
      (v5_exec_op connect remote (b'h' ∷ []) 443 [] [])
      (5 ∷ 0 ∷ 0 ∷ 3 ∷ ((2 ∷ 9 ∷ 9 ∷ []) ++ (1 ∷ 187 ∷ 42 ∷ [])))
    ≡ some (record {
      result = success;
      sent = encode_v5_exec_packet connect remote (b'h' ∷ []) 443;
      unread = 42 ∷ [];
    })
exec_run_accepted_example =
    exec_run_accepted connect remote (b'h' ∷ []) 443 [] 0 3 (2 ∷ 9 ∷ 9 ∷ []) 1 187 (42 ∷ [])
      remote-IsEndpoint (omega arith) exec_fits (name_address 2 (9 ∷ 9 ∷ []) refl)

exec_run_refused_example :
    (ec : ErrorCode) × (((◌≢◌ {A = ℕ} 5 5) × (ec ≡ invalid_version))
      ⊎ ((◌≡◌ {A = ℕ} 5 5) × Reported 5 ec))
    × (run_op v5_exec_resume
          (v5_exec_op connect remote (b'h' ∷ []) 443 [] [])
          (5 ∷ 5 ∷ 0 ∷ 1 ∷ 0 ∷ [])
        ≡ some (record {
          result = ec;
          sent = encode_v5_exec_packet connect remote (b'h' ∷ []) 443;
          unread = [];
        }))
exec_run_refused_example =
    exec_run_refused connect remote (b'h' ∷ []) 443 [] 5 5 0 1 0 [] remote-IsEndpoint (omega arith)
      exec_fits (inr (λ e. omega arith))

v4_exec_op_packet_example :
    (get_or (v4_exec_op connect remote [] 80 [] [] []) 0 0 ≡ 5)
    × (length (v4_exec_packet connect remote [] 80) ≡ get_v4_exec_packet_size remote [] [] + 1)
v4_exec_op_packet_example = v4_exec_op_packet connect remote 80 [] remote-IsEndpoint refl

v4_exec_run_example :
    run_op v4_exec_resume (4 ∷ 1 ∷ []) (0 ∷ 90 ∷ 0 ∷ 0 ∷ 0 ∷ 0 ∷ 0 ∷ 0 ∷ 42 ∷ [])
    ≡ some (record { result = success; sent = 4 ∷ 1 ∷ []; unread = 42 ∷ [] })
v4_exec_run_example = v4_exec_run (4 ∷ 1 ∷ []) 0 90 0 0 0 0 0 0 (42 ∷ []) (λ e. cc)
