-- ===== src/Storage/Messages/Scroll.antt =====
-- A chat that is read page after page.
use mathlib.Core.List.{Perm, Pairwise, reverse_perm}
use mathlib.Core.List.Perm
use native.Mathlib.Nat.{suc-mul}
use local_messenger.Common.{
  ℕ, zero, suc, ◌+◌, ◌*◌, ◌≤◌, ◌≡◌, refl, sym, ap, subst, ◌∙◌, List, [], ◌++◌, map, length, take,
  take_all, arith,
}
use local_messenger.Storage.{MessageRow, Database}
use local_messenger.Storage.Sql.{OrderBy, select}
use local_messenger.Storage.Sql.Newest.{length-perm}
use local_messenger.Storage.Messages.{Message, row_to_message, created, of_contact, get_by_contact}
use local_messenger.Storage.Messages.Pages.{get_by_contact_pages, get_by_contact_rises}

-- The messages of a contact, in the order of the table.
abbrev pub chat_rows : ℕ → Database → List Message
chat_rows contact_id db = map row_to_message (select (of_contact contact_id) db.messages)

-- One page that has room for all has each message once.
pub get_by_contact_whole :
    (newest : OrderBy created) (contact_id limit : ℕ) (db : Database)
    → length (select (of_contact contact_id) db.messages) ≤ limit
    → Perm (get_by_contact newest contact_id limit 0 db) (chat_rows contact_id db)
unfolding get_by_contact
get_by_contact_whole newest contact_id limit db room =
    let rows : List MessageRow = select (of_contact contact_id) db.messages in
    let all : take limit (newest.sort rows) ≡ newest.sort rows =
      take_all limit (newest.sort rows) (omega (arith, length-perm (newest.sort_perm rows))) in
    rw all (
      Perm.trans (reverse_perm (map row_to_message (newest.sort rows)))
        (Perm.map row_to_message (newest.sort_perm rows)))

-- `pages` pages of `size` messages from `offset` on, each older page in front of the newer ones.
abbrev pub scroll : OrderBy created → ℕ → ℕ → ℕ → ℕ → Database → List Message
scroll newest contact_id size zero offset db = []
scroll newest contact_id size (suc pages) offset db =
    scroll newest contact_id size pages (offset + size) db
    ++ get_by_contact newest contact_id size offset db

get_by_contact_none :
    (newest : OrderBy created) (contact_id offset : ℕ) (db : Database)
    → get_by_contact newest contact_id 0 offset db ≡ []
unfolding get_by_contact
get_by_contact_none newest contact_id offset db = refl

scroll_lem :
    (newest : OrderBy created) (contact_id size pages offset : ℕ) (db : Database)
    → scroll newest contact_id size pages offset db
      ≡ get_by_contact newest contact_id (pages * size) offset db
scroll_lem newest contact_id size zero offset db =
    let none_read : zero * size ≡ 0 = omega arith in
    sym (rw none_read (get_by_contact_none newest contact_id offset db))
scroll_lem newest contact_id size (suc pages) offset db =
    ap (λ l. l ++ get_by_contact newest contact_id size offset db)
      (scroll_lem newest contact_id size pages (offset + size) db)
    ∙ sym (get_by_contact_pages newest contact_id size (pages * size) offset db)
    ∙ ap (λ (n : ℕ). get_by_contact newest contact_id n offset db) (grind (arith, suc-mul))

-- A chat that is read page after page, each older page put in front of the newer ones, is whole once
-- the pages read have room for all messages of the contact: whatever the size of a page, each message
-- of the contact is there just once, and the messages get newer from the first to the last.
pub get_by_contact-scroll :
    (newest : OrderBy created) (contact_id size pages : ℕ) (db : Database)
    → length (select (of_contact contact_id) db.messages) ≤ pages * size
    → Perm (scroll newest contact_id size pages 0 db) (chat_rows contact_id db)
      × Pairwise (λ a b. a.created_at ≤ b.created_at) (scroll newest contact_id size pages 0 db)
get_by_contact-scroll newest contact_id size pages db room =
    let e = scroll_lem newest contact_id size pages 0 db in
    (
      subst (λ l. Perm l (chat_rows contact_id db)) (sym e)
          (get_by_contact_whole newest contact_id (pages * size) db room),
      subst (Pairwise (λ a b. a.created_at ≤ b.created_at)) (sym e)
          (get_by_contact_rises newest contact_id (pages * size) 0 db),
    )
