-- ===== src/Main/Launch.antt =====
-- src/main.cpp from the keys to the start of the network.
pub mod Known
use local_messenger.Common.{ℕ, List, [], Option, Bytes}
use local_messenger.Common.Chain.{◌>>=◌}
use local_messenger.Json.{JsonLibrary}
use local_messenger.Crypto.{Sodium, generate_keypair, key_to_hex}
use local_messenger.Session.{new_session}
use local_messenger.Network.{NetworkManager}
use local_messenger.Network.Lifecycle.{Service, Notice, new_service, start}
use local_messenger.Main.Startup.{Settled}

-- `secret` is the random secret key. The key pair is new at each start: it is saved nowhere.
unfoldable pub own_key : Sodium → Bytes → Bytes
unfolding generate_keypair key_to_hex
own_key sodium secret = key_to_hex sodium (generate_keypair sodium secret).public_key

-- The members of a new manager: no sessions. A session that is made later is a new one.
abbrev pub no_sessions : NetworkManager
no_sessions = record { sessions = []; store = λ i. new_session }

-- The settings are those that Startup.settle gives.
unfoldable pub launch :
    Sodium → JsonLibrary → Bytes → ℕ → Option Settled → Option (Service × List Notice)
unfolding own_key start new_service
launch sodium lib secret hardware_concurrency settled = do
  r ← settled
  start lib r.username r.cfg.tcp_port r.cfg.udp_port (own_key sodium secret) hardware_concurrency
      (new_service no_sessions)
