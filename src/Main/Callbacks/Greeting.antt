-- ===== src/Main/Callbacks/Greeting.antt =====
-- The handshake that a new connection is greeted with.
use local_messenger.Common.{ℕ, ◌≡◌, ◌≢◌, refl, ap, ◌∙◌, true, false, some, Bytes, arith}
use local_messenger.Common.Map.{find}
use local_messenger.Json.{JsonLibrary}
use local_messenger.Protocol.Types.{handshake}
use local_messenger.Protocol.{Packet, make_packet}
use local_messenger.Session.{Session, relocked, start, is_open}
use local_messenger.Session.Write.{send_relocks}
use local_messenger.Network.{NetworkManager, register_session, send_found, send_to}
use local_messenger.Network.Sessions.{find-register_session, register_session-store, is_open-start}
use local_messenger.Main.{App, blocked, sent_packet, send_packet}
use local_messenger.Main.Callbacks.{handshake_json, greet, on_peer_connected}

start-writing : (s : Session) → (start s).writing ≡ s.writing
unfolding start
start-writing s = refl

send_found_relocks :
    (packet : Packet) (i : ℕ) (m : NetworkManager)
    → is_open (m.store i) ≡ true
    → (m.store i).writing ≡ false
    → send_found packet (some i) m ≡ relocked
unfolding send_found
send_found_relocks packet i m o w = ground (arith, send_relocks packet (m.store i) w)

-- The greeting of a new connection never comes to its end: of a session that is open, has never
-- sent and is not the address's own already, where the handshake can be dumped, on_peer_connected
-- right after register_session stops at a mutex that its thread holds, while it also holds the
-- mutex of the map of sessions.
pub on_peer_connected-register_session :
    (lib : JsonLibrary) (username pub_key_hex ip text : Bytes) (i : ℕ) (app : App)
    → lib.dump (handshake_json lib username pub_key_hex) ≡ some text
    → find ip app.network.sessions ≢ some i
    → is_open (app.network.store i) ≡ true
    → (app.network.store i).writing ≡ false
    → (on_peer_connected lib username pub_key_hex ip
        (record app { network = (register_session ip i app.network).0 })).1
      ≡ blocked
unfolding on_peer_connected send_packet send_to
on_peer_connected-register_session lib username pub_key_hex ip text i app dumped fresh opened
      silent =
    let m : NetworkManager = (register_session ip i app.network).0 in
    let (there, same, reads, shut) = find-register_session ip ip i app.network fresh in
    let known : find ip m.sessions ≡ some i = ground (arith, there) in
    let begun : m.store i ≡ start (app.network.store i) =
      register_session-store ip i app.network fresh in
    let open_still : is_open (m.store i) ≡ true =
      ap is_open begun ∙ is_open-start (app.network.store i) ∙ opened in
    let silent_still : (m.store i).writing ≡ false =
      ap (λ s. s.writing) begun ∙ start-writing (app.network.store i) ∙ silent in
    rw (
      dumped,
      greet,
      known,
      send_found_relocks (make_packet handshake text) i m open_still silent_still,
      sent_packet,
    )
