-- ===== src/Storage/Integrity/Steps.antt =====
-- Every statement of the repositories keeps the schema's promises.
use local_messenger.Common.{
  some, ℕ, ◌<◌, ◌≡◌, refl, subst, true, Bool, List, map, Bytes, All, Option-cases, inl, inr, arith,
}
use mathlib.Core.List.{map-append}
use local_messenger.Storage.{
  ContactRow, MessageRow, Database, Stamp, ok, new_database, open_database,
}
use local_messenger.Storage.Sql.{select_one, delete, map-update}
use local_messenger.Storage.Contacts.{
  Contact, has_key, has_id, sent_to, inserted, overwritten, insert_or_update, upsert, remove,
  update_address, set_blocked,
}
use local_messenger.Storage.Messages.Stored.{insert-eq-ok}
use local_messenger.Storage.Messages.{
  Message, MessageStatus, message_row, insert, update_status, mark_all_read, has_uuid, is_unread,
}
use local_messenger.Storage.Settings.{set_value}
use local_messenger.Storage.Integrity.Lists.{
  Ascends, Distinct, contains, Ascends-append, Ascends-delete, Distinct-append, Distinct-delete,
  unknown_key, contains_found, All-contains-append, All-contains_last, All-contains-delete,
}

abbrev pub ids : List ContactRow → List ℕ
ids rows = map (λ r. r.id) rows

abbrev pub keys : List ContactRow → List Bytes
keys rows = map (λ r. r.public_key) rows

abbrev pub message_ids : List MessageRow → List ℕ
message_ids rows = map (λ m. m.id) rows

abbrev pub contact_ids : List MessageRow → List ℕ
contact_ids rows = map (λ m. m.contact_id) rows

-- Ids ascend in both tables and are bounded by the largest id ever given; no two contacts share a
-- public key; each message's contact is there.
pub record IsValid (db : Database) : Type 0 where
  pub contacts_ascend : Ascends 0 (ids db.contacts) db.contact_seq
  pub keys_differ : Distinct (keys db.contacts)
  pub messages_ascend : Ascends 0 (message_ids db.messages) db.message_seq
  pub contacts_known : All (λ i. contains i (ids db.contacts) ≡ true) (contact_ids db.messages)

-- What AUTOINCREMENT gives.
abbrev pub IsFreshContact : Stamp → Database → Type 0
IsFreshContact t db = db.contact_seq < t.rowid

abbrev pub IsFreshMessage : Stamp → Database → Type 0
IsFreshMessage t db = db.message_seq < t.rowid

pub new_database-IsValid : IsValid new_database
unfolding new_database
new_database-IsValid = record {
  contacts_ascend = omega arith;
  keys_differ = tt;
  messages_ascend = omega arith;
  contacts_known = tt;
}

-- An update of contacts that leaves ids and keys alone.
contacts_kept :
    (db : Database) (rows : List ContactRow)
    → ids rows ≡ ids db.contacts
    → keys rows ≡ keys db.contacts
    → IsValid db
    → IsValid (record db { contacts = rows })
contacts_kept db rows i k v = record {
  contacts_ascend = rw i v.contacts_ascend;
  keys_differ = rw k v.keys_differ;
  messages_ascend = v.messages_ascend;
  contacts_known = rw i v.contacts_known;
}

messages_kept :
    (db : Database) (rows : List MessageRow)
    → message_ids rows ≡ message_ids db.messages
    → contact_ids rows ≡ contact_ids db.messages
    → IsValid db
    → IsValid (record db { messages = rows })
messages_kept db rows i k v = record {
  contacts_ascend = v.contacts_ascend;
  keys_differ = v.keys_differ;
  messages_ascend = rw i v.messages_ascend;
  contacts_known = rw k v.contacts_known;
}

pub upsert-IsValid :
    (t : Stamp) (c : Contact) (db : Database)
    → IsFreshContact t db
    → IsValid db
    → IsValid (upsert t c db).0
unfolding upsert
upsert-IsValid t c db fresh v =
    elim (Option-cases (select_one (has_key c.public_key) db.contacts)) [
      | inl e ↦
          rw (e, insert_or_update)
            (unfold inserted in
              record {
                contacts_ascend =
                    rw map-append
                      (Ascends-append 0 db.contact_seq t.rowid _ v.contacts_ascend fresh);
                keys_differ = rw map-append (
                    Distinct-append c.public_key _ v.keys_differ
                      (unknown_key c.public_key db.contacts e));
                messages_ascend = v.messages_ascend;
                contacts_known =
                    rw map-append (All-contains-append _ (ids db.contacts) _ v.contacts_known);
              })
      | inr (r, e) ↦
          rw (e, insert_or_update)
            (contacts_kept db _
              (map-update (has_key c.public_key) (λ r. r.id) (overwritten t c) db.contacts
                (unfold overwritten in λ r. refl))
              (map-update (has_key c.public_key) (λ r. r.public_key) (overwritten t c) db.contacts
                (unfold overwritten in λ r. refl))
              v)
    ]

pub remove-IsValid : (id : ℕ) (db db' : Database) → remove id db ≡ ok db' → IsValid db → IsValid db'
unfolding remove
remove-IsValid id db db' done v = elim (Option-cases (select_one (sent_to id) db.messages)) [
  | inl e ↦
      let same : record db { contacts = delete (has_id id) db.contacts } ≡ db' =
        ground (arith, e, done) in
      subst IsValid same (record {
        contacts_ascend = Ascends-delete id 0 _ db.contacts v.contacts_ascend;
        keys_differ = Distinct-delete id db.contacts v.keys_differ;
        messages_ascend = v.messages_ascend;
        contacts_known = All-contains-delete id db.contacts db.messages e v.contacts_known;
      })
  | inr (m, e) ↦ ground arith
]

pub insert-IsValid :
    (t : Stamp) (m : Message) (db db' : Database) (id : ℕ)
    → IsFreshMessage t db
    → insert t m db ≡ ok (db', id)
    → IsValid db
    → IsValid db'
insert-IsValid t m db db' id fresh done v =
    let (c, known, same, given) = insert-eq-ok t m db db' id done in
    subst IsValid same (
      unfold message_row in
      record {
        contacts_ascend = v.contacts_ascend;
        keys_differ = v.keys_differ;
        messages_ascend =
            rw map-append (Ascends-append 0 db.message_seq t.rowid _ v.messages_ascend fresh);
        contacts_known = rw map-append (
            All-contains_last m.contact_id _ _ v.contacts_known
              (contains_found m.contact_id c db.contacts known));
      })

pub update_address-IsValid :
    (t : Stamp) (id port : ℕ) (ip : Bytes) (db : Database)
    → IsValid db
    → IsValid (update_address t id ip port db)
unfolding update_address
update_address-IsValid t id port ip db v =
    contacts_kept db _ (map-update (has_id id) (λ r. r.id) _ db.contacts (λ r. refl))
      (map-update (has_id id) (λ r. r.public_key) _ db.contacts (λ r. refl)) v

pub set_blocked-IsValid :
    (id : ℕ) (blocked : Bool) (db : Database) → IsValid db → IsValid (set_blocked id blocked db)
unfolding set_blocked
set_blocked-IsValid id blocked db v =
    contacts_kept db _ (map-update (has_id id) (λ r. r.id) _ db.contacts (λ r. refl))
      (map-update (has_id id) (λ r. r.public_key) _ db.contacts (λ r. refl)) v

pub update_status-IsValid :
    (uuid : Bytes) (status : MessageStatus) (db : Database)
    → IsValid db
    → IsValid (update_status uuid status db)
unfolding update_status
update_status-IsValid uuid status db v =
    messages_kept db _ (map-update (has_uuid uuid) (λ m. m.id) _ db.messages (λ m. refl))
      (map-update (has_uuid uuid) (λ m. m.contact_id) _ db.messages (λ m. refl)) v

pub mark_all_read-IsValid :
    (contact_id : ℕ) (db : Database) → IsValid db → IsValid (mark_all_read contact_id db)
unfolding mark_all_read
mark_all_read-IsValid contact_id db v =
    messages_kept db _ (map-update (is_unread contact_id) (λ m. m.id) _ db.messages (λ m. refl))
      (map-update (is_unread contact_id) (λ m. m.contact_id) _ db.messages (λ m. refl)) v

pub set_value-IsValid :
    (key value : Bytes) (db : Database) → IsValid db → IsValid (set_value key value db)
unfolding set_value
set_value-IsValid key value db v = record {
  contacts_ascend = v.contacts_ascend;
  keys_differ = v.keys_differ;
  messages_ascend = v.messages_ascend;
  contacts_known = v.contacts_known;
}

pub open_database-IsValid : (db : Database) → IsValid db → IsValid (open_database (some db))
unfolding open_database
open_database-IsValid db v = record {
  contacts_ascend = v.contacts_ascend;
  keys_differ = v.keys_differ;
  messages_ascend = v.messages_ascend;
  contacts_known = v.contacts_known;
}
