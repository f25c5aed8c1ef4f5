-- ===== src/Main/Callbacks/Arrival.antt =====
-- From the bytes that a session reads to the database.
use mathlib.Core.List.{append-nil}
use local_messenger.Common.{
  ◌+◌, ◌≤◌, ◌≡◌, ◌≢◌, refl, sym, ap, subst, ◌∙◌, List, [], ◌∷◌, ◌++◌, map, concat, some, Bytes,
  length, arith,
}
use local_messenger.Protocol.Types.{msg_text}
use local_messenger.Protocol.{Packet, max_payload, serialize, make_packet}
use local_messenger.Protocol.Header.{make_packet-IsSendable}
use local_messenger.Session.{Session, Outcome, done, relocked, header_read, packet}
use local_messenger.Session
use local_messenger.Session.Read.{on_read, receive_all, receive_all_wait, prepend}
use local_messenger.Session.Framing.{after_packets, receive_all-serialize}
use local_messenger.Network.{
  NetworkManager, Event, message, peer_lost, peer_connected, connecting, on_session_packet,
  on_session_event,
}
use local_messenger.Storage.{Stamp}
use local_messenger.Storage.Sql.{OrderBy}
use local_messenger.Storage.Contacts.{Contact, updated, find_by_ip}
use local_messenger.Storage.Messages.{incoming, created, with_message, unread_count, last_message}
use local_messenger.Storage.Messages.Latest.{AreOlder, last_message-insert}
use local_messenger.Main.{App, End, returned, blocked, thrown, then_step, skip, text_message}
use local_messenger.Main.Storing.{text_message-IsMessage, store_text_lem}
use local_messenger.Main.Callbacks.{on_message}
use local_messenger.Main.Callbacks.Incoming.{EndsWith, on_text-EndsWith, on_message-unread_count}

-- The callbacks that a session's packets and its end lead to. That a peer was lost is only logged,
-- and a session's handlers neither register nor connect.
unfoldable pub app_event : OrderBy updated → Stamp → Event → App → App × End
app_event by_update t (message ip pkt) = on_message by_update t ip pkt
app_event by_update t (peer_lost ip) = skip
app_event by_update t (peer_connected ip) = skip
app_event by_update t (connecting ip port) = skip

unfoldable pub app_events : OrderBy updated → Stamp → List Event → App → App × End
unfolding app_event
app_events by_update t [] app = (app, returned)
app_events by_update t (e ∷ es) app =
    then_step (app_events by_update t es) (app_event by_update t e app)

unfoldable pub handled :
    OrderBy updated → Stamp → Outcome (NetworkManager × List Event) → App → App × End
unfolding app_events
handled by_update t (done (m, es)) app = app_events by_update t es (record app { network = m })
handled by_update t relocked app = (app, blocked)

-- What register_session gives to the session of an address.
unfoldable pub session_event : OrderBy updated → Stamp → Bytes → Session.Event → App → App × End
unfolding handled on_session_event
session_event by_update t ip e app = handled by_update t (on_session_event ip e app.network) app

unfoldable pub arrive : OrderBy updated → Stamp → Bytes → List Session.Event → App → App × End
unfolding session_event
arrive by_update t ip [] app = (app, returned)
arrive by_update t ip (e ∷ es) app =
    then_step (arrive by_update t ip es) (session_event by_update t ip e app)

then_skip : (r : App × End) → then_step skip r ≡ r
then_skip (app, returned) = refl
then_skip (app, blocked) = refl
then_skip (app, thrown) = refl

-- One text packet.
one_packet :
    (text : Bytes) (s : Session)
    → s.reading ≡ header_read
    → length text ≤ max_payload
    → (receive_all (serialize (make_packet msg_text text)) s).events
      ≡ packet (make_packet msg_text text) ∷ []
unfolding on_read
one_packet text s r fits =
    let p : Packet = make_packet msg_text text in
    let read : receive_all (concat (map serialize (p ∷ [])) ++ []) s
        ≡ prepend (packet p ∷ []) (receive_all [] (after_packets (p ∷ []) s)) =
      receive_all-serialize (p ∷ []) [] s (make_packet-IsSendable msg_text text tt fits, tt) r in
    let bytes : concat (map serialize (p ∷ [])) ++ [] ≡ serialize p =
      append-nil _ ∙ append-nil (serialize p) in
    ap (λ b. (receive_all b s).events) (sym bytes)
    ∙ ap (λ x. x.events) read
    ∙ ap (λ x. packet p ∷ x.events) (receive_all_wait [] (after_packets (p ∷ []) s) refl)

text_event :
    (by_update : OrderBy updated) (t : Stamp) (ip text : Bytes) (app : App)
    → arrive by_update t ip (packet (make_packet msg_text text) ∷ []) app
      ≡ on_message by_update t ip (make_packet msg_text text) app
unfolding arrive on_session_packet make_packet
text_event by_update t ip text app =
    let r : App × End = on_message by_update t ip (make_packet msg_text text) app in
    then_skip (then_step skip r) ∙ then_skip r

-- The message is stored, whether the receipt is sent or not.
on_message-EndsWith :
    (by_update : OrderBy updated) (t : Stamp) (ip text : Bytes) (c : Contact) (app : App)
    → find_by_ip by_update ip app.db ≡ some c
    → EndsWith
        (on_message by_update t ip (make_packet msg_text text) app)
        (with_message t (text_message incoming text c) app.db)
unfolding on_message make_packet
on_message-EndsWith by_update t ip text c app found =
    on_text-EndsWith by_update t ip text app
      (record app { db = with_message t (text_message incoming text c) app.db })
      (store_text_lem by_update t incoming ip text c app found).0

stored_last :
    (by_update : OrderBy updated) (newest : OrderBy created) (t : Stamp) (ip text : Bytes)
    (c : Contact) (app : App)
    → find_by_ip by_update ip app.db ≡ some c
    → AreOlder c.id t.now app.db
    → last_message newest c.id (with_message t (text_message incoming text c) app.db)
      ≡ some (record (text_message incoming text c) { id = t.rowid; created_at = t.now })
unfolding text_message
stored_last by_update newest t ip text c app found older =
    last_message-insert newest t (text_message incoming text c) app.db
      (with_message t (text_message incoming text c) app.db) t.rowid
      (text_message-IsMessage text c).1 older
      (store_text_lem by_update t incoming ip text c app found).1

unread_one :
    (by_update : OrderBy updated) (t : Stamp) (ip text : Bytes) (c : Contact) (app : App)
    → find_by_ip by_update ip app.db ≡ some c
    → unread_count c.id (on_message by_update t ip (make_packet msg_text text) app).0.db
      ≡ unread_count c.id app.db + 1
unfolding make_packet
unread_one by_update t ip text c app found =
    (on_message-unread_count by_update t ip (make_packet msg_text text) c.id app).0
    ∙ ground (arith, found)

-- The bytes of a text packet of at most MAX_PAYLOAD, read by a session that waits for a header, from
-- an address with a contact all of whose messages are older: the text becomes the contact's last
-- message, as an incoming one with the time and the id of the statement, there is one unread message
-- more, and nothing throws, whether or not the receipt can be sent.
pub last_message-arrive :
    (by_update : OrderBy updated) (newest : OrderBy created) (t : Stamp) (ip text : Bytes)
    (c : Contact) (s : Session) (app : App)
    → s.reading ≡ header_read
    → length text ≤ max_payload
    → find_by_ip by_update ip app.db ≡ some c
    → AreOlder c.id t.now app.db
    → (last_message newest c.id
          (arrive by_update t ip
            (receive_all (serialize (make_packet msg_text text)) s).events
            app).0.db
        ≡ some (record (text_message incoming text c) { id = t.rowid; created_at = t.now }))
      × (unread_count c.id
            (arrive by_update t ip
              (receive_all (serialize (make_packet msg_text text)) s).events
              app).0.db
          ≡ unread_count c.id app.db + 1)
      × ((arrive by_update t ip
            (receive_all (serialize (make_packet msg_text text)) s).events
            app).1
          ≢ thrown)
last_message-arrive by_update newest t ip text c s app r fits found older =
    let all : arrive by_update t ip (receive_all (serialize (make_packet msg_text text)) s).events
          app
        ≡ on_message by_update t ip (make_packet msg_text text) app =
      ap (λ es. arrive by_update t ip es app) (one_packet text s r fits)
      ∙ text_event by_update t ip text app in
    let (same, quiet) = on_message-EndsWith by_update t ip text c app found in
    (
      ap (λ x. last_message newest c.id x.0.db) all
          ∙ ap (last_message newest c.id) same
          ∙ stored_last by_update newest t ip text c app found older,
      ap (λ x. unread_count c.id x.0.db) all ∙ unread_one by_update t ip text c app found,
      subst (λ x. x.1 ≢ thrown) (sym all) quiet,
    )
