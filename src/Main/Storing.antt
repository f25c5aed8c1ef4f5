-- ===== src/Main/Storing.antt =====
-- What store_text does for an address with a contact.
use local_messenger.Common.{◌≡◌, refl, some, Bytes, Option-cases, inl, inr}
use local_messenger.Storage.{Stamp, ok}
use local_messenger.Storage.Sql.{OrderBy, select_one}
use local_messenger.Storage.Contacts.{Contact, updated, has_id, find_by_ip}
use local_messenger.Storage.Contacts.Address.{find_by_ip-ne-none}
use local_messenger.Storage.Messages.{
  incoming, MessageDirection, outgoing, insert, with_message, direction_of, direction_code,
  msg_type_of, msg_type_code, status_of, status_code,
}
use local_messenger.Storage.Messages.Stored.{insert_stores}
use local_messenger.Storage.Messages.Insert.{IsMessage}
use local_messenger.Main.{App, returned, stored_message, text_message, store_for, store_text}

pub text_message-IsMessage :
    (text : Bytes) (c : Contact)
    → IsMessage (text_message outgoing text c) × IsMessage (text_message incoming text c)
unfolding text_message direction_of direction_code msg_type_of msg_type_code status_of status_code
text_message-IsMessage text c = (
  record { direction = refl; msg_type = refl; status = refl },
  record { direction = refl; msg_type = refl; status = refl },
)

-- The contact is there, so that the message is stored.
pub store_text_lem :
    (by_update : OrderBy updated) (t : Stamp) (direction : MessageDirection) (ip text : Bytes)
    (c : Contact) (app : App)
    → find_by_ip by_update ip app.db ≡ some c
    → (store_text by_update t direction ip text app
        ≡ (record app { db = with_message t (text_message direction text c) app.db }, returned))
      × (insert t (text_message direction text c) app.db
          ≡ ok (with_message t (text_message direction text c) app.db, t.rowid))
unfolding store_text
store_text_lem by_update t direction ip text c app found =
    elim (Option-cases (select_one (has_id c.id) app.db.contacts)) [
      | inl gone ↦ absurd (find_by_ip-ne-none by_update ip c app.db found gone)
      | inr (r, there) ↦
          let stored : insert t (text_message direction text c) app.db
              ≡ ok (with_message t (text_message direction text c) app.db, t.rowid) =
            insert_stores t (text_message direction text c) app.db r
              (unfold text_message in there) in
          (rw (found, store_for, stored, stored_message), stored)
    ]
