-- ===== src/Storage/Contacts/Address.antt =====
-- find_by_ip: of the contacts with an address, one that was updated last.
use mathlib.Core.Option
use mathlib.Core.HLevel.{hedberg}
use mathlib.Core.List.{Mem}
use local_messenger.Common.{◌≤◌, ◌≡◌, ap, none, some, Bytes, Bytes-discrete}
use local_messenger.Storage.{ContactRow, Database}
use local_messenger.Storage.Sql.{OrderBy, select, select_one, some_of_map}
use local_messenger.Storage.Sql.Newest.{
  sort-head_mem, sort-head_newest, select_mem, select_sub, select_holds, select_one-ne-none,
}
use local_messenger.Storage.Contacts.{Contact, row_to_contact, updated, has_id, has_ip, find_by_ip}

-- Where a contact has the address, find_by_ip finds one with the address that was updated no earlier.
pub find_by_ip_newest :
    (by_update : OrderBy updated) (ip : Bytes) (r : ContactRow) (db : Database)
    → Mem r db.contacts
    → r.ip ≡ ip
    → (c : Contact) × (find_by_ip by_update ip db ≡ some c)
      × (c.ip ≡ ip)
      × (r.updated_at ≤ c.updated_at)
unfolding find_by_ip
find_by_ip_newest by_update ip r db k e =
    let (c, found, newer, there) =
      sort-head_newest by_update (select (has_ip ip) db.contacts) r
        (select_mem (has_ip ip) r db.contacts e k) in
    (
      row_to_contact c,
      ap (Option.map row_to_contact) found,
      unfold row_to_contact in
          select_holds (has_ip ip) c db.contacts (hedberg Bytes-discrete c.ip ip) there,
      unfold row_to_contact in newer,
    )

row_to_contact-id : (r : ContactRow) (c : Contact) → row_to_contact r ≡ c → r.id ≡ c.id
unfolding row_to_contact
row_to_contact-id r c e = ap (λ x. x.id) e

-- What find_by_ip finds is a contact of the table.
pub find_by_ip-ne-none :
    (by_update : OrderBy updated) (ip : Bytes) (c : Contact) (db : Database)
    → find_by_ip by_update ip db ≡ some c
    → select_one (has_id c.id) db.contacts ≡ none
    → ⊥
unfolding find_by_ip
find_by_ip-ne-none by_update ip c db found gone =
    let (r, first, same) = some_of_map row_to_contact _ found in
    let id : r.id ≡ c.id = row_to_contact-id r c same in
    select_one-ne-none (has_id c.id) r db.contacts id
      (select_sub (has_ip ip) r db.contacts
        (sort-head_mem by_update (select (has_ip ip) db.contacts) r first))
      gone
