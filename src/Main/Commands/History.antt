-- ===== src/Main/Commands/History.antt =====
-- What /history shows of what /send has sent.
use mathlib.Core.List.{map-append}
use local_messenger.Common.{
  ◌≡◌, sym, ap, subst, ◌∙◌, Bool, false, List, [], ◌∷◌, ◌++◌, map, some, Bytes,
}
use local_messenger.Protocol.Types.{msg_text}
use local_messenger.Protocol.{make_packet}
use local_messenger.Session.{Outcome, done, relocked}
use local_messenger.Network.{NetworkManager, send_to}
use local_messenger.Storage.{Database, Stamp, ok}
use local_messenger.Storage.Sql.{OrderBy}
use local_messenger.Storage.Contacts.{Contact, updated, find_by_ip}
use local_messenger.Discovery.{PeerInfo}
use local_messenger.Main.Storing.{text_message-IsMessage, store_text_lem}
use local_messenger.Storage.Messages.{
  Message, outgoing, created, insert, with_message, get_by_contact, last_message,
}
use local_messenger.Storage.Messages.Latest.{AreOlder, last_message-insert}
use local_messenger.Storage.Messages.Pages.{get_by_contact-last_message, to_list}
use local_messenger.Main.{
  App, returned, then_step, sent_packet, send_packet, text_message, store_text,
}
use local_messenger.Main.Commands.{
  send, history, Output, history_line, history_lines, is_incoming, run_send, execute,
}

run_send_stores :
    (by_update : OrderBy updated) (t : Stamp) (ip text : Bytes) (c : Contact) (app app' : App)
    → find_by_ip by_update ip app.db ≡ some c
    → run_send by_update t ip text app ≡ (app', returned)
    → with_message t (text_message outgoing text c) app.db ≡ app'.db
unfolding run_send send_packet
run_send_stores by_update t ip text c app app' found e =
    sends (send_to ip (make_packet msg_text text) app.network) e
  where
    sends :
        (o : Outcome NetworkManager)
        → then_step (store_text by_update t outgoing ip text) (sent_packet app o) ≡ (app', returned)
        → with_message t (text_message outgoing text c) app.db ≡ app'.db
    sends (done n) k =
        let (stored, there) =
          store_text_lem by_update t outgoing ip text c (record app { network = n }) found in
        ap (λ x. x.0.db) (sym stored ∙ k)
    sends relocked k = cc

last_of :
    (newest : OrderBy created) (t : Stamp) (text : Bytes) (c : Contact) (db : Database)
    → AreOlder c.id t.now db
    → insert t (text_message outgoing text c) db
      ≡ ok (with_message t (text_message outgoing text c) db, t.rowid)
    → last_message newest c.id (with_message t (text_message outgoing text c) db)
      ≡ some (record (text_message outgoing text c) { id = t.rowid; created_at = t.now })
unfolding text_message
last_of newest t text c db older there =
    last_message-insert newest t (text_message outgoing text c) db
      (with_message t (text_message outgoing text c) db) t.rowid (text_message-IsMessage text c).0
      older there

abbrev line_of : Message → Output
line_of m = history_line m.created_at (is_incoming m.direction) m.content

history_lines-last_message :
    (newest : OrderBy created) (ip : Bytes) (c : Contact) (m : Message) (db : Database)
    → last_message newest c.id db ≡ some m
    → history_lines newest db ip (some c)
      ≡ map line_of (get_by_contact newest c.id 19 1 db) ++ (line_of m ∷ [])
unfolding history_lines
history_lines-last_message newest ip c m db e =
    ap (map line_of) (get_by_contact-last_message newest c.id 19 db)
    ∙ map-append line_of (get_by_contact newest c.id 19 1 db)
        (to_list (last_message newest c.id db))
    ∙ ap (λ o. map line_of (get_by_contact newest c.id 19 1 db) ++ map line_of (to_list o)) e

-- Of an address with a contact: where all messages of the contact are older than the time of a /send
-- that returns, the next /history of the address ends with the line of that message, sent at that
-- time.
pub execute-history-send :
    (by_update : OrderBy updated) (newest : OrderBy created) (like : Bytes → Bytes → Bool)
    (t u : Stamp) (discovered : List PeerInfo) (ip text : Bytes) (c : Contact) (app app' : App)
    (out : List Output)
    → find_by_ip by_update ip app.db ≡ some c
    → AreOlder c.id t.now app.db
    → execute by_update newest like t discovered (send ip text) app ≡ (app', returned, out)
    → (earlier : List Output) × ((execute by_update newest like u discovered (history ip) app').2
        ≡ earlier ++ (history_line t.now false text ∷ []))
unfolding execute find_by_ip text_message
execute-history-send by_update newest like t u discovered ip text c app app' out found older e =
    let m : Message = text_message outgoing text c in
    let stored : with_message t m app.db ≡ app'.db =
      run_send_stores by_update t ip text c app app' found (ap (λ x. (x.0, x.1)) e) in
    let (again, there) = store_text_lem by_update t outgoing ip text c app found in
    let latest : last_message newest c.id (with_message t m app.db)
        ≡ some (record m { id = t.rowid; created_at = t.now }) =
      last_of newest t text c app.db older there in
    subst
      (λ d.
        (earlier : List Output) × (history_lines newest d ip (find_by_ip by_update ip d)
          ≡ earlier ++ (history_line t.now false text ∷ [])))
      stored
      (
        map line_of (get_by_contact newest c.id 19 1 (with_message t m app.db)),
        ap (history_lines newest (with_message t m app.db) ip) found
            ∙ history_lines-last_message newest ip c (record m { id = t.rowid; created_at = t.now })
                (with_message t m app.db) latest,
      )
