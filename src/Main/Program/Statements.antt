-- ===== src/Main/Program/Statements.antt =====
-- What the program does to its database, as statements of the repositories.
use local_messenger.Common.{
  ℕ, ◌≡◌, refl, sym, subst, Bool, true, false, if◌then◌else◌, List, [], ◌∷◌, Option, none, some,
  Bytes,
}
use local_messenger.Json.{JsonLibrary}
use local_messenger.Protocol.Types.{PacketType, msg_text}
use local_messenger.Protocol.{Packet, make_pong}
use local_messenger.Session.{Session, Outcome, done, relocked, ◌>>=◌}
use local_messenger.Session
use local_messenger.Network.{
  NetworkManager, Event, message, is_ping, send_to, on_session_event, on_session_packet,
  on_session_closed,
}
use local_messenger.Storage.{Database, Stamp, Result, ok, sql_error}
use local_messenger.Storage.Sql.{OrderBy}
use local_messenger.Storage.Contacts.{Contact, updated, find_by_ip}
use local_messenger.Storage.Messages.{MessageDirection, incoming, Message, insert}
use local_messenger.Storage.Integrity.{IsFreshMessage, Run, next, inserts}
use local_messenger.Main.{
  App, End, returned, blocked, thrown, then_step, sent_packet, send_packet, stored_message,
  text_message, store_for, store_text,
}
use local_messenger.Main.Callbacks.{
  on_text, on_packet, on_message, on_peer_connected, greet, handshake_json, receipt,
}
use local_messenger.Main.Callbacks.Arrival.{session_event, handled, app_events, app_event}

-- The statements so far lead to the database of the state.
abbrev pub Leads : Database → App → Type 0
Leads d app = Run d app.db

abbrev answered :
    Bytes
    → Packet
    → NetworkManager
    → Bool
    → Outcome NetworkManager
    → Outcome (NetworkManager × List Event)
answered ip p m ping o = if ping then (do m' ← o; done (m', [])) else done (m, message ip p ∷ [])

sent_packet-db : (app : App) (o : Outcome NetworkManager) → (sent_packet app o).0.db ≡ app.db
unfolding sent_packet
sent_packet-db app (done m) = refl
sent_packet-db app relocked = refl

pub send_packet-db :
    (ip : Bytes) (packet : Packet) (app : App) → (send_packet ip packet app).0.db ≡ app.db
unfolding send_packet
send_packet-db ip packet app = sent_packet-db app (send_to ip packet app.network)

module _ (d : Database) where
  pub then_step-Leads :
      (f : App → App × End) (r : App × End)
      → Leads d r.0
      → ((app : App) → Leads d app → Leads d (f app).0)
      → Leads d (then_step f r).0
  then_step-Leads f (app, returned) l kept = kept app l
  then_step-Leads f (app, blocked) l kept = l
  then_step-Leads f (app, thrown) l kept = l

  stored_message-Leads :
      (t : Stamp) (m : Message) (app : App) (o : Result (Database × ℕ))
      → insert t m app.db ≡ o
      → IsFreshMessage t app.db
      → Leads d app
      → Leads d (stored_message app o).0
  unfolding stored_message
  stored_message-Leads t m app (ok (db, id)) e fresh l = next l (inserts t m id fresh e)
  stored_message-Leads t m app sql_error e fresh l = l

  store_for-Leads :
      (t : Stamp) (direction : MessageDirection) (text : Bytes) (o : Option Contact) (app : App)
      → IsFreshMessage t app.db
      → Leads d app
      → Leads d (store_for t direction text o app).0
  unfolding store_for
  store_for-Leads t direction text none app fresh l = l
  store_for-Leads t direction text (some c) app fresh l =
      stored_message-Leads t (text_message direction text c) app
        (insert t (text_message direction text c) app.db) refl fresh l

  pub send_packet-Leads :
      (ip : Bytes) (packet : Packet) (app : App)
      → Leads d app
      → Leads d (send_packet ip packet app).0
  send_packet-Leads ip packet app l = subst (Run d) (sym (send_packet-db ip packet app)) l

  greet-Leads :
      (ip : Bytes) (o : Option Bytes) (app : App) → Leads d app → Leads d (greet ip o app).0
  unfolding greet
  greet-Leads ip none app l = l
  greet-Leads ip (some text) app l = send_packet-Leads ip _ app l

  pub on_peer_connected-Leads :
      (lib : JsonLibrary) (username pub_key_hex ip : Bytes) (app : App)
      → Leads d app
      → Leads d (on_peer_connected lib username pub_key_hex ip app).0
  unfolding on_peer_connected
  on_peer_connected-Leads lib username pub_key_hex ip app l =
      greet-Leads ip (lib.dump (handshake_json lib username pub_key_hex)) app l

  module _ (by_update : OrderBy updated) (t : Stamp) (ip : Bytes) where
    pub store_text-Leads :
        (direction : MessageDirection) (text : Bytes) (app : App)
        → IsFreshMessage t app.db
        → Leads d app
        → Leads d (store_text by_update t direction ip text app).0
    unfolding store_text
    store_text-Leads direction text app fresh l =
        store_for-Leads t direction text (find_by_ip by_update ip app.db) app fresh l

    pub on_packet-Leads :
        (type : PacketType) (payload : Bytes) (app : App)
        → IsFreshMessage t app.db
        → Leads d app
        → Leads d (on_packet by_update t ip type payload app).0
    unfolding on_packet on_text
    on_packet-Leads msg_text payload app fresh l =
        then_step-Leads (send_packet ip receipt) _ (store_text-Leads incoming payload app fresh l)
          (λ app' l'. send_packet-Leads ip receipt app' l')
    on_packet-Leads _ payload app fresh l = l

    -- A packet that is a ping is answered, and any other goes to on_message.
    packet-Leads :
        (p : Packet) (app : App) (b : Bool) (o : Outcome NetworkManager)
        → IsFreshMessage t app.db
        → Leads d app
        → Leads d (handled by_update t (answered ip p app.network b o) app).0
    unfolding handled app_events app_event on_message
    packet-Leads p app true (done m) fresh l = l
    packet-Leads p app true relocked fresh l = l
    packet-Leads p app false o fresh l =
        then_step-Leads (λ app'. (app', returned)) (on_message by_update t ip p app)
          (on_packet-Leads p.header.type p.payload app fresh l) (λ app' l'. l')

    pub session_event-Leads :
        (e : Session.Event) (app : App)
        → IsFreshMessage t app.db
        → Leads d app
        → Leads d (session_event by_update t ip e app).0
    unfolding session_event on_session_event on_session_packet on_session_closed handled app_events
        app_event
    session_event-Leads (Session.packet p) app fresh l =
        packet-Leads p app (is_ping p.header.type) (send_to ip make_pong app.network) fresh l
    session_event-Leads (Session.closing context ec) app fresh l = l
