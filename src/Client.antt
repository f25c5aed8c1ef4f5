-- ===== src/Client.antt =====
-- src/core/Network/TcpClient.h and TcpClient.cpp: one outgoing connection, in two asynchronous steps.
pub mod Outcomes
mod Examples
use local_messenger.Common.{List, [], ◌∷◌, Bytes}

-- What a connect waits for: the resolver, the connection, or nothing any more.
pub data Phase : Type 0 where
  resolving connecting ended : Phase

-- How an asynchronous step ends; `failed` has `ec.message()`.
pub data Completion : Type 0 where
  failed : Bytes → Completion
  succeeded : Completion

-- Calls of `on_connect`, with a new session on the socket, and of `on_error`.
pub data Event : Type 0 where
  on_connect : Event
  on_error : Bytes → Event

unfoldable pub connect : Phase
connect = resolving

-- The handler of `async_resolve`.
unfoldable pub on_resolved : Completion → Phase × List Event
on_resolved (failed message) = (ended, on_error message ∷ [])
on_resolved succeeded = (connecting, [])

-- The handler of `async_connect`.
unfoldable pub on_connected : Completion → Phase × List Event
on_connected (failed message) = (ended, on_error message ∷ [])
on_connected succeeded = (ended, on_connect ∷ [])

-- The handler that a completion is for.
unfoldable pub on_completion : Phase → Completion → Phase × List Event
unfolding on_resolved on_connected
on_completion resolving c = on_resolved c
on_completion connecting c = on_connected c
on_completion ended c = (ended, [])
