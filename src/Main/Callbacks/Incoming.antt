-- ===== src/Main/Callbacks/Incoming.antt =====
-- What a packet does to the database.
use local_messenger.Common.{
  ℕ, ◌+◌, ◌≡◌, ◌≢◌, refl, sym, ap, subst, ◌∙◌, ◌==◌, if◌then◌else◌, Option, none, some, Bytes,
  Option-cases, inl, inr, arith,
}
use local_messenger.Protocol.Types.{PacketType, msg_text}
use local_messenger.Protocol.{Packet}
use local_messenger.Session.{Outcome, done, relocked}
use local_messenger.Network.{NetworkManager, send_to}
use local_messenger.Storage.{Database, Stamp}
use local_messenger.Storage.Sql.{OrderBy}
use local_messenger.Storage.Contacts.{Contact, updated, find_by_ip}
use local_messenger.Storage.Messages.{
  incoming, direction_code, status_code, with_message, unread_count,
}
use local_messenger.Storage.Messages.Unread.{adds_unread, unread_count-insert}
use local_messenger.Main.{
  App, End, returned, thrown, then_step, sent_packet, send_packet, text_message, store_for,
  store_text,
}
use local_messenger.Main.Storing.{store_text_lem}
use local_messenger.Main.Callbacks.{receipt, on_text, on_packet, on_message}

-- What a packet from the address of this contact, if there is one, adds to the unread messages of
-- contact `i`.
abbrev pub new_unread : ℕ → PacketType → Option Contact → ℕ
new_unread i msg_text none = 0
new_unread i msg_text (some c) = if c.id == i then 1 else 0
new_unread i _ o = 0

-- The database of the state, and no exception.
abbrev pub EndsWith : App × End → Database → Type 0
EndsWith (app, end) db = (app.db ≡ db) × (end ≢ thrown)

send_packet-EndsWith :
    (ip : Bytes) (packet : Packet) (app : App) → EndsWith (send_packet ip packet app) app.db
unfolding send_packet
send_packet-EndsWith ip packet app = sends (send_to ip packet app.network)
  where
    sends : (o : Outcome NetworkManager) → EndsWith (sent_packet app o) app.db
    sends (done m) = (refl, λ e. cc)
    sends relocked = (refl, λ e. cc)

unread_text :
    (i : ℕ) (text : Bytes) (c : Contact)
    → adds_unread i (text_message incoming text c) ≡ (if c.id == i then 1 else 0)
unfolding text_message direction_code status_code
unread_text i text c = ground arith

-- Once the message is stored, or there is no contact, the receipt follows.
pub on_text-EndsWith :
    (by_update : OrderBy updated) (t : Stamp) (ip text : Bytes) (app next : App)
    → store_text by_update t incoming ip text app ≡ (next, returned)
    → EndsWith (on_text by_update t ip text app) next.db
unfolding on_text
on_text-EndsWith by_update t ip text app next e =
    subst (λ r. EndsWith (then_step (send_packet ip receipt) r) next.db) (sym e)
      (send_packet-EndsWith ip receipt next)

store_text_unknown :
    (by_update : OrderBy updated) (t : Stamp) (ip text : Bytes) (app : App)
    → find_by_ip by_update ip app.db ≡ none
    → store_text by_update t incoming ip text app ≡ (app, returned)
unfolding store_text
store_text_unknown by_update t ip text app unknown = rw (unknown, store_for)

on_text_lem :
    (by_update : OrderBy updated) (t : Stamp) (ip text : Bytes) (i : ℕ) (app : App)
    → (unread_count i (on_text by_update t ip text app).0.db
        ≡ unread_count i app.db + new_unread i msg_text (find_by_ip by_update ip app.db))
      × ((on_text by_update t ip text app).1 ≢ thrown)
on_text_lem by_update t ip text i app = elim (Option-cases (find_by_ip by_update ip app.db)) [
  | inl unknown ↦
      let (same, quiet) =
        on_text-EndsWith by_update t ip text app app
          (store_text_unknown by_update t ip text app unknown) in
      (ap (unread_count i) same ∙ ground (arith, unknown), quiet)
  | inr (c, found) ↦
      let (stored, there) = store_text_lem by_update t incoming ip text c app found in
      let after : Database = with_message t (text_message incoming text c) app.db in
      let (same, quiet) =
        on_text-EndsWith by_update t ip text app (record app { db = after }) stored in
      (
        ap (unread_count i) same
            ∙ unread_count-insert t (text_message incoming text c) i t.rowid app.db after there
            ∙ ground (arith, unread_text i text c, found),
        quiet,
      )
]

-- A packet throws nothing. A text from the address of a contact adds one to the contact's unread
-- messages; texts from other addresses, and all other packets, leave every count as it was.
pub on_message-unread_count :
    (by_update : OrderBy updated) (t : Stamp) (ip : Bytes) (pkt : Packet) (i : ℕ) (app : App)
    → (unread_count i (on_message by_update t ip pkt app).0.db
        ≡ unread_count i app.db + new_unread i pkt.header.type (find_by_ip by_update ip app.db))
      × ((on_message by_update t ip pkt app).1 ≢ thrown)
unfolding on_message
on_message-unread_count by_update t ip pkt i app = by_type pkt.header.type
  where
    by_type :
        (type : PacketType)
        → (unread_count i (on_packet by_update t ip type pkt.payload app).0.db
            ≡ unread_count i app.db + new_unread i type (find_by_ip by_update ip app.db))
          × ((on_packet by_update t ip type pkt.payload app).1 ≢ thrown)
    by_type msg_text = on_text_lem by_update t ip pkt.payload i app
    by_type _ = (omega arith, λ e. cc)
