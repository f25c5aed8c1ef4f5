-- ===== src/Storage/Messages/Unread.antt =====
-- unread_count under the statements that change messages.
use local_messenger.Common.{
  ℕ, ◌+◌, ◌≡◌, ite, List, [], ◌∷◌, ◌++◌, ℕ_discrete, length, if◌then◌else◌, ltb, ◌==◌, ◌&&◌, arith,
}
use local_messenger.Storage.{MessageRow, Database, Stamp, ok}
use local_messenger.Storage.Sql.{select, update}
use local_messenger.Storage.Messages.{
  Message, is_unread, unread_count, mark_all_read, insert, message_row, direction_code, status_code,
}

select_unread_marked :
    (i j : ℕ) (rows : List MessageRow)
    → length (select (is_unread j) (update (is_unread i) (λ r. record r { status = 2 }) rows))
      ≡ ite (ℕ_discrete i j) 0 (length (select (is_unread j) rows))
unfolding select update
select_unread_marked i j [] = ground arith
select_unread_marked i j (r ∷ rows) = ground (arith, select_unread_marked i j rows)

-- mark_all_read leaves its contact with no unread message, and every other contact with as many as
-- before.
pub unread_count-mark_all_read :
    (i j : ℕ) (db : Database)
    → unread_count j (mark_all_read i db) ≡ ite (ℕ_discrete i j) 0 (unread_count j db)
unfolding unread_count mark_all_read
unread_count-mark_all_read i j db = select_unread_marked i j db.messages

select-append :
    (i : ℕ) (xs ys : List MessageRow)
    → length (select (is_unread i) (xs ++ ys))
      ≡ length (select (is_unread i) xs) + length (select (is_unread i) ys)
unfolding select
select-append i [] ys = omega arith
select-append i (x ∷ xs) ys = ground (arith, select-append i xs ys)

-- What a message adds to the unread messages of contact `i`.
abbrev pub adds_unread : ℕ → Message → ℕ
adds_unread i m =
    if m.contact_id == i && (direction_code m.direction == 0 && ltb (status_code m.status) 2)
    then 1
    else 0

unread_row :
    (t : Stamp) (m : Message) (i : ℕ)
    → length (select (is_unread i) (message_row t m ∷ [])) ≡ adds_unread i m
unfolding select message_row
unread_row t m i = ground arith

-- A stored message adds one to its contact's unread messages if it came in and has not been read,
-- and leaves all other counts as they were.
pub unread_count-insert :
    (t : Stamp) (m : Message) (i id : ℕ) (db db' : Database)
    → insert t m db ≡ ok (db', id)
    → unread_count i db' ≡ unread_count i db + adds_unread i m
unfolding unread_count insert
unread_count-insert t m i id db db' e =
    ground (arith, select-append i db.messages (message_row t m ∷ []), unread_row t m i)
