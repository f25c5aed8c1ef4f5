-- ===== src/Main/Program/Examples.antt =====
-- A user starts the program for the first time; a peer is found, connects, and is greeted.
use local_messenger.Common.{
  ℕ, ◌≡◌, refl, true, false, List, [], ◌∷◌, ◌++◌, none, some, Bytes, Bytes-discrete, codes, arith,
}
use local_messenger.Common.Map.{find, assign}
use local_messenger.Json.Sample.{sample, entries}
use local_messenger.Crypto.Sample.{toy, to_hex}
use local_messenger.Protocol.Types.{msg_text}
use local_messenger.Protocol.{make_packet}
use local_messenger.Session.{Session, received, payload_read, new_session}
use local_messenger.Discovery.{PeerInfo, new_discovery}
use local_messenger.Discovery
use local_messenger.Server.{new_server}
use local_messenger.Server
use local_messenger.Network.Lifecycle.{start}
use local_messenger.Storage.{new_database, open_database}
use local_messenger.Storage.Sql.{select_one}
use local_messenger.Storage.Sample.{two_contacts, now}
use local_messenger.Storage.Sorting.{by_insertion}
use local_messenger.Storage.Contacts.{updated, upsert}
use local_messenger.Storage.Messages.{created}
use local_messenger.Storage.Integrity.{IsValid}
use local_messenger.Storage.Mailbox.Kept.{Keeps}
use local_messenger.Storage.Mailbox.Owners.{IsOwned}
use local_messenger.Storage.Settings.{new_manager, update}
use local_messenger.Main.Startup.{posix, settle, get_data_dir, get_download_dir}
use local_messenger.Main.Launch.{own_key, launch, no_sessions}
use local_messenger.Main.Callbacks.{on_peer_found, handshake_json}
use local_messenger.Main.Commands.{parse_line}
use local_messenger.Main.Program.{
  Context, Program, Happening, waiting, ended, connects, finds, loses, reads, types, signals,
  closes, step, run, handler, after_handler,
}
use local_messenger.Main.Program.Deadlock.{IsStuck, run-connects}
use local_messenger.Main.Program.Valid.{AllFresh}
use local_messenger.Main.Program.Kept.{run-Keeps}
use local_messenger.Main.Program.Deaf.{run-connects_deaf}
use local_messenger.Main.Begin.{Environment, Files, begin, runs}
use local_messenger.Main.Begin.Whole.{run-begin}

abbrev env : Environment
env = record {
  platform = posix;
  appdata = none;
  profile = none;
  home = some (codes "/h");
  argument = some (codes "Al");
  secret = 1 ∷ (2 ∷ []);
  hardware_concurrency = 4;
  can_write = true;
}

abbrev no_files : Files
no_files = record { databases = []; texts = [] }

abbrev key : Bytes
key = own_key toy env.secret

abbrev first : Program
first = record {
  app = record { db = new_database; network = no_sessions };
  held = false;
  threads = 4;
  running = true;
  console = waiting;
  printed = [];
}

begin-first : begin toy sample env no_files ≡ runs (codes "Al") key first
unfolding begin find settle get_data_dir get_download_dir launch start Discovery.start Server.start
    new_discovery new_server new_manager update to_hex new_database open_database
begin-first = refl

abbrev c : Context
c = record {
  sodium = toy;
  lib = sample;
  by_update = by_insertion updated;
  newest = by_insertion created;
  like = λ p s. true;
  username = codes "Al";
  pub_key_hex = key;
}

abbrev bo : PeerInfo
bo = record {
  username = codes "Bo";
  ip = codes "26.0.0.2";
  port = 7777;
  version = codes "0.1.0";
  public_key = [];
  last_seen = 0;
}

abbrev happenings : List Happening
happenings =
    finds (record { now = 5; rowid = 1 }) bo
    ∷ (connects bo.ip 0 ∷ (types (record { now = 6; rowid = 1 }) [] (codes "/quit") ∷ []))

-- After it was greeted, a line, a signal and the end of the input do not end the program.
run-connects_example : IsStuck (
    run c
      (connects bo.ip 0
        ∷ (types (record { now = 6; rowid = 1 }) [] (codes "/quit") ∷ (signals ∷ (closes ∷ []))))
      first)
unfolding find handshake_json own_key to_hex
run-connects_example =
    run-connects c first bo.ip (3 ∷ entries (handshake_json sample (codes "Al") key)) 0
      (types (record { now = 6; rowid = 1 }) [] (codes "/quit") ∷ (signals ∷ (closes ∷ []))) refl
      (omega arith) (λ e. cc) (λ e. cc) refl

happenings-AllFresh : AllFresh c happenings first
unfolding step handler after_handler on_peer_found upsert select_one new_database own_key to_hex
    find assign new_session
happenings-AllFresh = omega arith

run-begin_example : IsValid (run c happenings first).app.db
unfolding find
run-begin_example =
    run-begin toy sample env (codes "Al") key no_files first c happenings begin-first (λ d e. cc)
      happenings-AllFresh

-- Three more peers wait for the mutex.
abbrev early : List Happening
early =
    finds (record { now = 5; rowid = 1 }) bo
    ∷ (connects (codes "26.0.0.3") 1 ∷ (loses (codes "26.0.0.4") ∷ []))

abbrev late : List Happening
late = finds (record { now = 7; rowid = 2 }) (record bo { public_key = codes "bb" }) ∷ (closes ∷ [])

run-connects_deaf_example :
    (run c (connects bo.ip 0 ∷ (early ++ late)) first).app
    ≡ (run c (connects bo.ip 0 ∷ early) first).app
unfolding find handshake_json own_key to_hex
run-connects_deaf_example =
    run-connects_deaf c first bo.ip (3 ∷ entries (handshake_json sample (codes "Al") key)) 0 early
      late refl (omega arith) (λ e. cc) refl (refl, (refl, (refl, tt))) (omega arith)

-- A session of Bob's address that waits for the payload of a text.
abbrev receiving : Session
receiving = record new_session {
  reading = payload_read;
  current_header = (make_packet msg_text (codes "yo")).header;
}

abbrev full : Program
full = record first {
  app = record {
    db = two_contacts;
    network = record { sessions = assign (codes "26.0.0.1") 0 []; store = λ i. receiving };
  };
}

-- Bo is found, and then a text comes, which is stored before its receipt waits.
abbrev arrivals : List Happening
arrivals = finds now bo ∷ (reads now (codes "26.0.0.1") 0 (received (codes "yo")) ∷ [])

arrivals-AllFresh : AllFresh c arrivals full
unfolding step handler after_handler on_peer_found upsert select_one assign
arrivals-AllFresh = omega arith

run-Keeps_example :
    Keeps full.app.db (run c arrivals full).app.db
    × ((id : ℕ) (key : Bytes)
        → IsOwned id key full.app.db
        → IsOwned id key (run c arrivals full).app.db)
run-Keeps_example = run-Keeps c arrivals full arrivals-AllFresh

-- A program that nobody has connected to ends with its first /quit.
quit_ends :
    (run c (types (record { now = 6; rowid = 1 }) [] (codes "/quit") ∷ []) first).console ≡ ended
unfolding run step parse_line Bytes-discrete
quit_ends = refl
