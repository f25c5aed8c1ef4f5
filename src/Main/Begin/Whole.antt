-- ===== src/Main/Begin/Whole.antt =====
-- From the files that main finds to whatever the program makes of them.
use local_messenger.Common.{
  ◌≡◌, refl, subst, List, Option, none, some, Bytes, Bool-cases, inl, inr, arith,
}
use local_messenger.Common.Map.{find}
use local_messenger.Json.{JsonLibrary}
use local_messenger.Crypto.{Sodium, initialize}
use local_messenger.Network.Lifecycle.{Service, Notice}
use local_messenger.Storage.{Database, new_database, open_database}
use local_messenger.Storage.Integrity.{IsValid, Run, here, next, reopens}
use local_messenger.Main.Startup.{get_data_dir, get_download_dir, Settled, settle}
use local_messenger.Main.Launch.{own_key, launch}
use local_messenger.Main.Program.{Context, Happening, Program, run}
use local_messenger.Main.Program.Valid.{AllFresh, run-IsValid}
use local_messenger.Main.Begin.{
  Environment, Files, runs, db_path, settings_path, program_of, begun, begin_with, begin,
}

begun-db :
    (username key u k : Bytes) (db : Database) (o : Option (Service × List Notice)) (p : Program)
    → begun username key db o ≡ runs u k p
    → db ≡ p.app.db
unfolding begun program_of
begun-db username key u k db none p e = cc
begun-db username key u k db (some (s, out)) p e = ground (arith, e)

module _ (sodium : Sodium) (lib : JsonLibrary) (env : Environment) where
  abbrev pub own_db_path : Bytes
  own_db_path = db_path (get_data_dir env.platform env.appdata env.home)

  begin_with-db :
      (u k : Bytes) (db : Database) (o : Option Settled) (p : Program)
      → begin_with sodium lib env db o ≡ runs u k p
      → db ≡ p.app.db
  unfolding begin_with
  begin_with-db u k db none p e = cc
  begin_with-db u k db (some r) p e =
      begun-db r.username (own_key sodium env.secret) u k db
        (launch sodium lib env.secret env.hardware_concurrency (some r)) p e

  begin-db :
      (u k : Bytes) (files : Files) (p : Program)
      → begin sodium lib env files ≡ runs u k p
      → open_database (find own_db_path files.databases) ≡ p.app.db
  unfolding begin
  begin-db u k files p e = elim (Bool-cases (initialize sodium)) [
    | inl up ↦
        begin_with-db u k (open_database (find own_db_path files.databases))
          (settle lib env.can_write (get_data_dir env.platform env.appdata env.home)
            (get_download_dir env.platform env.profile env.home) env.argument
            (find (settings_path (get_data_dir env.platform env.appdata env.home)) files.texts))
          p (rw up at e)
    | inr down ↦ ground (arith, down, e)
  ]

  open_database-Run :
      (o : Option Database)
      → ((d : Database) → o ≡ some d → Run new_database d)
      → Run new_database (open_database o)
  unfolding open_database
  open_database-Run none stored = here
  open_database-Run (some d) stored = next (stored d refl) (reopens (unfold open_database in refl))

  -- main begins with the database file of its folder, or with a new one. Where that file came out of
  -- statements on a new database, over any number of starts: whatever happens to the program then,
  -- lines, signals, connections, packets, peers found or lost, with row ids that are fresh and ports
  -- below 2 ^ 16, the ids of both tables ascend and are bounded by the largest id ever given, no two
  -- contacts share a public key, and the contact of each message is there, also where a handler has
  -- thrown or waits forever.
  pub run-begin :
      (username key : Bytes) (files : Files) (p : Program) (c : Context) (hs : List Happening)
      → begin sodium lib env files ≡ runs username key p
      → ((d : Database) → find own_db_path files.databases ≡ some d → Run new_database d)
      → AllFresh c hs p
      → IsValid (run c hs p).app.db
  run-begin username key files p c hs e stored fresh =
      run-IsValid c hs p
        (subst (Run new_database) (begin-db username key files p e)
          (open_database-Run (find own_db_path files.databases) stored))
        fresh
