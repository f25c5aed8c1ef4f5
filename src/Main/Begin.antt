-- ===== src/Main/Begin.antt =====
-- src/main.cpp from its first line to the loop: libsodium, the keys, the database, the settings, and the
-- start of the network. What is printed, the log files and the making of folders are left out.
pub mod Whole
use local_messenger.Common.{
  ℕ, Bool, true, false, if◌then◌else◌, List, [], ◌++◌, Option, none, some, Bytes, codes,
}
use local_messenger.Common.Map.{Map, find}
use local_messenger.Json.{JsonLibrary}
use local_messenger.Crypto.{Sodium, initialize}
use local_messenger.Network.Lifecycle.{Service, Notice}
use local_messenger.Storage.{Database, open_database}
use local_messenger.Main.Startup.{Platform, get_data_dir, get_download_dir, Settled, settle}
use local_messenger.Main.Launch.{own_key, launch}
use local_messenger.Main.Program.{Program, waiting}

-- What main is given: the variables of the environment, argv[1], the random secret key, the number of
-- threads that the hardware has, and whether settings.json can be written.
pub record Environment : Type 0 where
  pub platform : Platform
  pub appdata : Option Bytes
  pub profile : Option Bytes
  pub home : Option Bytes
  pub argument : Option Bytes
  pub secret : Bytes
  pub hardware_concurrency : ℕ
  pub can_write : Bool

-- The files by their paths.
pub record Files : Type 0 where
  pub databases : Map Database
  pub texts : Map Bytes

-- main returns with a code, an exception ends it, or its loop begins, under a name and with a key.
pub data Begun : Type 0 where
  exits : ℕ → Begun
  throws : Begun
  runs : Bytes → Bytes → Program → Begun

unfoldable pub db_path : Bytes → Bytes
db_path data_dir = data_dir ++ codes "/messages.db"

unfoldable pub settings_path : Bytes → Bytes
settings_path data_dir = data_dir ++ codes "/settings.json"

unfoldable pub program_of : Database → Service → Program
program_of db s = record {
  app = record { db = db; network = s.network };
  held = false;
  threads = s.threads;
  running = true;
  console = waiting;
  printed = [];
}

unfoldable pub begun : Bytes → Bytes → Database → Option (Service × List Notice) → Begun
unfolding program_of
begun username key db none = throws
begun username key db (some (s, out)) = runs username key (program_of db s)

module _ (sodium : Sodium) (lib : JsonLibrary) (env : Environment) where
  unfoldable pub begin_with : Database → Option Settled → Begun
  unfolding begun own_key launch
  begin_with db none = throws
  begin_with db (some r) =
      begun r.username (own_key sodium env.secret) db
        (launch sodium lib env.secret env.hardware_concurrency (some r))

  unfoldable pub begin : Files → Begun
  unfolding initialize begin_with settle get_data_dir get_download_dir db_path settings_path
  begin files =
      let data_dir = get_data_dir env.platform env.appdata env.home in
      if initialize sodium
      then begin_with (open_database (find (db_path data_dir) files.databases)) (
          settle lib env.can_write data_dir (get_download_dir env.platform env.profile env.home)
            env.argument (find (settings_path data_dir) files.texts))
      else exits 1
