-- ===== src/Main/Callbacks.antt =====
-- What main gives to the network manager: the callbacks on a packet, on a peer that was found, and on
-- a connection. The callback on a peer that was lost only logs.
pub mod Incoming
pub mod Found
pub mod Greeting
pub mod Arrival
use local_messenger.Common.{
  ℕ, Bool, true, false, not, if◌then◌else◌, List, [], ◌∷◌, Option, none, some, Bytes, codes,
}
use local_messenger.Common.Map.{find}
use local_messenger.Json.{Value, string, JsonLibrary}
use local_messenger.Protocol.Types.{PacketType, msg_text, msg_receipt, handshake}
use local_messenger.Protocol.{Packet, make_packet}
use local_messenger.Discovery.{PeerInfo, is_empty}
use local_messenger.Crypto.{Sodium, hex_to_key, fingerprint}
use local_messenger.Network.{Event, is_connected, connect_to}
use local_messenger.Storage.{Stamp}
use local_messenger.Storage.Sql.{OrderBy}
use local_messenger.Storage.Contacts.{Contact, default_contact, updated, upsert}
use local_messenger.Storage.Messages.{incoming}
use local_messenger.Main.{App, End, returned, thrown, ◌>>◌, skip, send_packet, store_text}

unfoldable pub receipt : Packet
unfolding make_packet
receipt = make_packet msg_receipt (codes "delivered")

unfoldable pub on_text : OrderBy updated → Stamp → Bytes → Bytes → App → App × End
unfolding receipt store_text send_packet
on_text by_update t ip text = do store_text by_update t incoming ip text; send_packet ip receipt

-- The switch: a text is stored and confirmed, and all other packets are only logged.
unfoldable pub on_packet : OrderBy updated → Stamp → Bytes → PacketType → Bytes → App → App × End
unfolding on_text
on_packet by_update t ip msg_text payload = on_text by_update t ip payload
on_packet by_update t ip _ payload = skip

unfoldable pub on_message : OrderBy updated → Stamp → Bytes → Packet → App → App × End
unfolding on_packet
on_message by_update t ip pkt = on_packet by_update t ip pkt.header.type pkt.payload

unfoldable pub key_fingerprint : Sodium → Option Bytes → Bytes
key_fingerprint sodium none = []
key_fingerprint sodium (some key) = fingerprint sodium key

unfoldable pub found_contact : Sodium → PeerInfo → Contact
unfolding key_fingerprint
found_contact sodium info = record default_contact {
  username = info.username;
  ip = info.ip;
  port = info.port;
  public_key = info.public_key;
  fingerprint =
      if not (is_empty info.public_key)
      then key_fingerprint sodium (hex_to_key sodium info.public_key)
      else [];
}

-- The contact is stored, and a connection asked for.
unfoldable pub on_peer_found : Sodium → Stamp → PeerInfo → App → App × List Event
unfolding found_contact
on_peer_found sodium t info app = (
  record app { db = (upsert t (found_contact sodium info) app.db).0 },
  if not (is_connected info.ip app.network) then connect_to info.ip info.port app.network else [],
)

unfoldable pub handshake_json : (lib : JsonLibrary) → Bytes → Bytes → lib.Json
handshake_json lib username pub_key_hex = lib.object (
    (codes "username", string username)
    ∷ (codes "public_key", string pub_key_hex)
    ∷ (codes "version", string (codes "0.1.0"))
    ∷ [])

unfoldable pub greet : Bytes → Option Bytes → App → App × End
unfolding send_packet
greet ip none app = (app, thrown)
greet ip (some text) app = send_packet ip (make_packet handshake text) app

unfoldable pub on_peer_connected : JsonLibrary → Bytes → Bytes → Bytes → App → App × End
unfolding greet handshake_json
on_peer_connected lib username pub_key_hex ip =
    greet ip (lib.dump (handshake_json lib username pub_key_hex))
