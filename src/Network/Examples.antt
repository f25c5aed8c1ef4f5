-- ===== src/Network/Examples.antt =====
-- An address with a session, and a second session of it.
use local_messenger.Common.{
  ℕ, ◌≡◌, ◌≢◌, refl, true, false, [], ◌∷◌, some, Bytes, Bytes-discrete, codes, arith,
}
use local_messenger.Common.Map.{find, assign}
use local_messenger.Session.{new_session, is_open, header_read, invalid_argument, done, relocked}
use local_messenger.Network.{
  NetworkManager, register_session, on_session_closed, is_connected, send_to,
}
use local_messenger.Protocol.{make_pong}
use local_messenger.Network.Crossing.{AreNew, crossed}
use local_messenger.Network.Crossing.Agreement.{is_connected-crossed}
use local_messenger.Network.Steps.{new_manager, Trace, here, next, registers}
use local_messenger.Network.Steps.Managed.{IsManaged, Trace-send_to}
use local_messenger.Network.Sessions.{find-register_session, on_session_closed-register_session}

abbrev address : Bytes
address = codes "26.0.0.1"

abbrev connected : NetworkManager
connected = record { sessions = (address, 0) ∷ []; store = λ i. new_session }

other_session : find address connected.sessions ≢ some 1
unfolding find
other_session = ground arith

find-register_session_example :
    (find address (register_session address 1 connected).0.sessions ≡ some 1)
    × (is_connected address (register_session address 1 connected).0 ≡ is_open new_session)
    × (((register_session address 1 connected).0.store 1).reading ≡ header_read)
    × ((j : ℕ)
        → find address connected.sessions ≡ some j
        → is_open ((register_session address 1 connected).0.store j) ≡ false)
unfolding Bytes-discrete
find-register_session_example = find-register_session address address 1 connected other_session

on_session_closed-register_session_example :
    (is_connected address (on_session_closed address (register_session address 1 connected).0).0
      ≡ false)
    × (is_open ((on_session_closed address (register_session address 1 connected).0).0.store 1)
        ≡ true)
    × (((on_session_closed address (register_session address 1 connected).0).0.store 1).reading
        ≡ header_read)
unfolding is_open new_session
on_session_closed-register_session_example =
    on_session_closed-register_session address 1 connected other_session refl

-- A new manager with one connection.
abbrev one_connection : NetworkManager
one_connection = (register_session address 1 new_manager).0

one_connection-Trace : Trace new_manager one_connection
unfolding find
one_connection-Trace = next here (registers address 1 (λ ip h. cc) refl)

Trace-send_to_example :
    (send_to address make_pong one_connection ≡ relocked) × IsManaged one_connection
unfolding is_connected register_session new_session Bytes-discrete find assign
Trace-send_to_example = Trace-send_to one_connection address make_pong one_connection-Trace

-- Two peers without sessions. The first opens the connection that both know as session 0, the second
-- that of session 1, and each registers its own first.
two_new : AreNew address 0 1 new_manager
unfolding find is_open new_session
two_new = record {
  differ = λ e. absurd (omega (arith, e));
  other_i = λ e. cc;
  other_k = λ e. cc;
  open_i = refl;
  open_k = refl;
}

is_connected-crossed_example :
    (r : NetworkManager × NetworkManager) × (crossed invalid_argument true false address address 0 1
        0 1 new_manager new_manager
      ≡ done r)
    × (is_connected address r.0 ≡ false)
    × (is_connected address r.1 ≡ false)
is_connected-crossed_example =
    is_connected-crossed invalid_argument true false address address 0 1 0 1 new_manager new_manager
      two_new two_new
