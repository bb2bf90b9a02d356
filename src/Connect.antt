-- ===== src/Connect.antt =====
-- Connecting a socket to a name: include/asioext/impl/connect.cpp and `connect_op` of
-- include/asioext/connect.hpp.
--
-- The resolver and the socket are Asio's, and so is the composed operation that `connect_op` is
-- launched as; of that its answers are what `connect_op` does with it. What they do is a parameter: functions of the state of the
-- network, which a resolved name, an endpoint and an error code are numbers in; code 0 is no error.
pub mod Attempts
use asio_extensions.Prelude.{ℕ, Bool, true, false, List, [], ◌∷◌, ◌==◌, if◌then◌else◌}
use asio_extensions.Composed.{Reply, waits, completes}

-- the calls of the resolver and of the socket, on a state of the network
pub record Network : Type 1 where
  pub State : Type 0
  pub resolve : State → (List ℕ × ℕ) × State
  pub close : State → ℕ × State
  pub connect_to : ℕ → State → ℕ × State

module _ (net : Network) where
  -- one pass of the loop: the error code of `close` is overwritten
  abbrev pub attempt : ℕ → net.State → ℕ × net.State
  attempt entry s = let (ec, s') = net.close s in net.connect_to entry s'

  abbrev pub try_each : List ℕ → ℕ → net.State → ℕ × net.State
  try_each [] ec s = (ec, s)
  try_each (entry ∷ results) ec s =
      let (ec', s') = attempt entry s in
      let rest = try_each results ec' s' in if ec' == 0 then (ec', s') else rest

  -- `connect` with an error code
  pub connect : ℕ → net.State → ℕ × net.State
  connect host_not_found s =
      let ((results, ec), s') = net.resolve s in
      if ec == 0 then try_each results host_not_found s' else (ec, s')

-- the invocations of `connect_op`, by their arguments
pub data Message : Type 0 where
  started : Message
  resolved : ℕ → List ℕ → Message
  connected : ℕ → ℕ → Message

-- what the handler is given
pub record Connected : Type 0 where
  pub ec : ℕ
  pub endpoint : ℕ

-- `connect_op`, which keeps no state of its own that changes; the operations that it starts are
-- parameters, as is the endpoint made without arguments.
pub connect_op :
    (World : Type 0) (async_resolve : World → World) (async_connect : List ℕ → World → World)
    (no_endpoint : ℕ)
    → ℕ
    → Message
    → World
    → Reply ℕ Connected × World
connect_op World async_resolve async_connect no_endpoint i started s = (waits i, async_resolve s)
connect_op World async_resolve async_connect no_endpoint i (resolved ec results) s =
    if ec == 0
    then (waits i, async_connect results s)
    else (completes (record { ec = ec; endpoint = no_endpoint }), s)
connect_op World async_resolve async_connect no_endpoint i (connected ec ep) s =
    (completes (record { ec = ec; endpoint = ep }), s)
