-- ===== src/Storage/Messages/Search.antt =====
-- What search finds, against the messages of the table that match.
use mathlib.Core.List.{Perm, Pairwise, map-append}
use mathlib.Core.List.Perm
use mathlib.Core.List.Pairwise
use native.Mathlib.Bridge.{le_prop}
use local_messenger.Common.{
  ℕ, ◌≤◌, ◌≡◌, refl, sym, ap, subst, ◌∙◌, Bool, if◌then◌else◌, List, [], ◌∷◌, ◌++◌, map, Bytes,
  codes, length, take, drop, ltb, length-map, length-take, take-append-drop, arith,
}
use local_messenger.Storage.{MessageRow, Database}
use local_messenger.Storage.Sql.{OrderBy, select}
use local_messenger.Storage.Sql.Newest.{length-perm}
use local_messenger.Storage.Messages.{Message, created, row_to_message, dec_true, search}

module _ (like : Bytes → Bytes → Bool) (query : Bytes) where
  -- The messages whose text has the query in it, in the order of the table.
  abbrev pub matching : List MessageRow → List Message
  matching [] = []
  matching (r ∷ rows) =
      if like (codes "%" ++ (query ++ codes "%")) r.content
      then row_to_message r ∷ matching rows
      else matching rows

  abbrev matches : List MessageRow → List MessageRow
  matches rows = select (λ m. dec_true (like (codes "%" ++ (query ++ codes "%")) m.content)) rows

  matches-matching : (rows : List MessageRow) → map row_to_message (matches rows) ≡ matching rows
  unfolding select
  matches-matching [] = refl
  matches-matching (r ∷ rows) = ground (arith, matches-matching rows)

  left_out : OrderBy created → ℕ → Database → List Message
  left_out newest limit db = map row_to_message (drop limit (newest.sort (matches db.messages)))

  search-left_out :
      (newest : OrderBy created) (limit : ℕ) (db : Database)
      → map row_to_message (newest.sort (matches db.messages))
        ≡ search newest like query limit db ++ left_out newest limit db
  unfolding search left_out
  search-left_out newest limit db =
      let rows : List MessageRow = newest.sort (matches db.messages) in
      ap (map row_to_message) (sym (take-append-drop limit rows))
      ∙ map-append row_to_message (take limit rows) (drop limit rows)

  -- The messages that match are those that a search returns and those that it leaves out: all of them
  -- together fall in time, those returned first, and those returned are as many as match, but no more
  -- than `limit`.
  pub search_complete :
      (newest : OrderBy created) (limit : ℕ) (db : Database)
      → (rest : List Message) × Perm
          (search newest like query limit db ++ rest)
          (matching db.messages)
        × Pairwise (λ a b. b.created_at ≤ a.created_at) (search newest like query limit db ++ rest)
        × (length (search newest like query limit db) ≡ (
            if ltb limit (length (matching db.messages))
            then limit
            else length (matching db.messages)))
  search_complete newest limit db =
      let rows : List MessageRow = newest.sort (matches db.messages) in
      let whole = search-left_out newest limit db in
      let same = matches-matching db.messages in
      let all : Perm (map row_to_message rows) (matching db.messages) =
        subst (Perm (map row_to_message rows)) same
          (Perm.map row_to_message (newest.sort_perm (matches db.messages))) in
      (
        left_out newest limit db,
        subst (λ l. Perm l (matching db.messages)) whole all,
        subst (Pairwise (λ a b. b.created_at ≤ a.created_at)) whole (
            unfold row_to_message in
            Pairwise.map (λ a b. le_prop) row_to_message (λ a b k. k) (newest.sort_falls _)),
        unfold search in
            ground (
              arith,
              length-map (take limit rows) row_to_message,
              length-take limit rows,
              length-map rows row_to_message,
              length-perm all,
            ),
      )
