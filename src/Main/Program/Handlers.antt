-- ===== src/Main/Program/Handlers.antt =====
-- What each handler does to the database.
use local_messenger.Common.{
  ℕ, ◌≤◌, ◌<◌, ◌^◌, refl, sym, subst, Bool, true, false, List, [], ◌∷◌, Option, none, some, Bytes,
  length, arith,
}
use local_messenger.Protocol.Types.{PacketType, msg_text}
use local_messenger.Protocol.{PacketHeader, deserialize_header}
use local_messenger.Session.{
  Session, Completion, Reading, failed, received, no_read, header_read, payload_read, handle_error,
  header_done, parsed_header, on_header_read, on_payload_read,
}
use local_messenger.Session
use local_messenger.Network.{register_session, on_peer_lost}
use local_messenger.Storage.{Database, Stamp}
use local_messenger.Storage.Integrity.{IsFreshContact, IsFreshMessage, next, upserts}
use local_messenger.Storage.Messages.{incoming}
use local_messenger.Main.{App, End, returned, blocked, thrown}
use local_messenger.Main.Callbacks.{found_contact, on_peer_found}
use local_messenger.Main.Callbacks.Found.{found_contact-port}
use local_messenger.Main.Program.{
  Context, Happening, connects, finds, loses, reads, types, wait, read_by, halt_reading,
  packet_held, event_done, events_done, read_handled, handler,
}
use local_messenger.Main.Program.Statements.{
  Leads, then_step-Leads, on_peer_connected-Leads, store_text-Leads, session_event-Leads,
}

-- A completed read makes one call at most.
parsed_header-short : (o : Option PacketHeader) (s : Session) → length (parsed_header o s).1 ≤ 1
unfolding parsed_header handle_error header_done
parsed_header-short none s = ground arith
parsed_header-short (some hdr) s = ground arith

read_by-short : (r : Reading) (done : Completion) (s : Session) → length (read_by r done s).1 ≤ 1
unfolding read_by on_header_read on_payload_read handle_error
read_by-short no_read done s = omega arith
read_by-short header_read (failed ec) s = ground arith
read_by-short header_read (received bytes) s = parsed_header-short (deserialize_header bytes) _
read_by-short payload_read (failed ec) s = ground arith
read_by-short payload_read (received bytes) s = omega arith

-- The row ids of the statements are above all that were given, and ports are of type uint16_t.
abbrev pub IsFresh : Happening → Database → Type 0
IsFresh (finds t info) db = IsFreshContact t db × (info.port < 2 ^ 16)
IsFresh (reads t ip i done) db = IsFreshMessage t db
IsFresh (types t discovered l) db = IsFreshMessage t db
IsFresh _ db = Unit {0}

module _ (d : Database) where
  halt_reading-Leads : (i : ℕ) (r : App × End) → Leads d r.0 → Leads d (halt_reading i r).0
  unfolding halt_reading
  halt_reading-Leads i (app, returned) l = l
  halt_reading-Leads i (app, blocked) l = l
  halt_reading-Leads i (app, thrown) l = l

  module _ (c : Context) (t : Stamp) (ip : Bytes) where
    packet_held-Leads :
        (type : PacketType) (payload : Bytes) (app : App)
        → IsFreshMessage t app.db
        → Leads d app
        → Leads d (packet_held c.by_update t ip type payload app).0
    unfolding packet_held
    packet_held-Leads msg_text payload app fresh l =
        then_step-Leads d wait _ (store_text-Leads d c.by_update t ip incoming payload app fresh l)
          (λ app' l'. l')
    packet_held-Leads _ payload app fresh l = l

    event_done-Leads :
        (held : Bool) (e : Session.Event) (app : App)
        → IsFreshMessage t app.db
        → Leads d app
        → Leads d (event_done c.by_update held t ip e app).0
    unfolding event_done
    event_done-Leads false e app fresh l = session_event-Leads d c.by_update t ip e app fresh l
    event_done-Leads true (Session.packet p) app fresh l =
        packet_held-Leads p.header.type p.payload app fresh l
    event_done-Leads true (Session.closing context ec) app fresh l = l

    events_done-Leads :
        (held : Bool) (es : List Session.Event) (app : App)
        → length es ≤ 1
        → IsFreshMessage t app.db
        → Leads d app
        → Leads d (events_done c.by_update held t ip es app).0
    unfolding events_done
    events_done-Leads held [] app few fresh l = l
    events_done-Leads held (e ∷ []) app few fresh l =
        then_step-Leads d (λ app'. (app', returned)) (event_done c.by_update held t ip e app)
          (event_done-Leads held e app fresh l) (λ app' l'. l')
    events_done-Leads held (e ∷ f ∷ es) app few fresh l = absurd (omega arith)

    read_handled-Leads :
        (held : Bool) (i : ℕ) (done : Completion) (app : App)
        → IsFreshMessage t app.db
        → Leads d app
        → Leads d (read_handled c.by_update held t ip i done app).0
    unfolding read_handled
    read_handled-Leads held i done app fresh l =
        let s : Session = app.network.store i in
        halt_reading-Leads i _ (
          events_done-Leads held (read_by s.reading done s).1 _ (read_by-short s.reading done s)
            fresh l)

  module _ (c : Context) where
    pub handler-Leads :
        (held : Bool) (h : Happening) (app : App)
        → IsFresh h app.db
        → Leads d app
        → Leads d (handler c held h app).0
    unfolding handler on_peer_found on_peer_lost register_session
    handler-Leads true (connects ip i) app fresh l = l
    handler-Leads false (connects ip i) app fresh l =
        on_peer_connected-Leads d c.lib c.username c.pub_key_hex ip _ l
    handler-Leads held (finds t info) app fresh l = next l (
        upserts t (found_contact c.sodium info) fresh.0
          (subst (λ n. n < 2 ^ 16) (sym (found_contact-port c.sodium info)) fresh.1) refl)
    handler-Leads true (loses ip) app fresh l = l
    handler-Leads false (loses ip) app fresh l = l
    handler-Leads held (reads t ip i done) app fresh l =
        read_handled-Leads c t ip held i done app fresh l
    handler-Leads held _ app fresh l = l
