-- ===== src/Server.antt =====
-- src/core/Network/TcpServer.h and TcpServer.cpp: the acceptor and its loop of accepts.
--
-- Opening, binding and listening may throw and are left out. `accepting` says whether an
-- `async_accept` is outstanding. The text of `remote_endpoint().address()` comes with the connection,
-- and is `none` where that call throws because the peer has gone already.
pub mod Serving
mod Examples
use local_messenger.Common.{
  ℕ, Bool, true, false, if◌then◌else◌, List, [], ◌∷◌, Option, none, some, Bytes,
}

pub record TcpServer : Type 0 where
  pub port : ℕ
  pub listening : Bool
  pub running : Bool
  pub accepting : Bool

-- How an `async_accept` ends.
pub data Accept : Type 0 where
  failed : Accept
  connected : Option Bytes → Accept

-- A call of `on_accept_`, for a session whose peer has this address; or an exception that leaves the
-- handler.
pub data Event : Type 0 where
  accepted : Bytes → Event
  thrown : Event

unfoldable pub new_server : ℕ → TcpServer
new_server port = record { port = port; listening = false; running = false; accepting = false }

unfoldable pub do_accept : TcpServer → TcpServer
do_accept s = if s.running then record s { accepting = true } else s

unfoldable pub start : TcpServer → TcpServer
unfolding do_accept
start s = do_accept (record s { listening = true; running = true })

-- A closed acceptor ends its outstanding accept with an error.
unfoldable pub stop : TcpServer → TcpServer
stop s = record s { running = false; listening = false }

-- The handler; the accept that completed is no longer outstanding.
unfoldable pub on_accepted : Accept → TcpServer → TcpServer × List Event
unfolding do_accept
on_accepted failed s = (record s { accepting = false }, [])
on_accepted (connected none) s = (record s { accepting = false }, thrown ∷ [])
on_accepted (connected (some address)) s =
    (do_accept (record s { accepting = false }), accepted address ∷ [])
