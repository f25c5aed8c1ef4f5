-- ===== src/Main/Examples.antt =====
-- main on concrete inputs.
use mathlib.Core.List.{eq-or-mem_of_mem-cons, not-mem-nil}
use mathlib.Core.Logic.Or
use native.Mathlib.Bridge.{le_prop}
use local_messenger.Common.{
  ◌+◌, ◌≡◌, ◌≢◌, ◌↔◌, refl, ap, true, false, List, [], ◌∷◌, ◌++◌, none, some, Bytes, Bytes-discrete,
  codes, dec_le, arith,
}
use local_messenger.Common.Map.{find}
use local_messenger.Json.Sample.{sample, sample-IsJsonLibrary, entries}
use local_messenger.Protocol.Types.{msg_text}
use local_messenger.Protocol.{make_packet, serialize}
use local_messenger.Discovery.{PeerInfo, UdpDiscovery, beacon}
use local_messenger.Discovery
use local_messenger.Server
use local_messenger.Network.Lifecycle.{Service, start}
use local_messenger.Crypto.Sample.{toy}
use local_messenger.Session.{new_session}
use local_messenger.Network.{send_to}
use local_messenger.Storage.Sample.{bob, two_contacts, now}
use local_messenger.Storage.Sql.{select, select_one}
use local_messenger.Storage.Sorting.{by_insertion}
use local_messenger.Storage.Contacts.{updated, row_to_contact, find_by_ip, find_by_public_key}
use local_messenger.Storage.Contacts.Upsert.{merged}
use local_messenger.Storage.Messages.Latest.{AreOlder}
use local_messenger.Storage.Messages.{created, insert, unread_count, incoming, last_message}
use local_messenger.Storage.Settings.{AppSettings, new_manager, update, default_settings, to_json}
use local_messenger.Main.{App, thrown, text_message}
use local_messenger.Main.Startup.{Settled, settle}
use local_messenger.Main.Startup.Settling.{settle_again}
use local_messenger.Main.Commands.{
  send, history, Output, sent_line, history_line, parse_line, execute,
}
use local_messenger.Main.Commands.Parsing.{LacksSpace, parse_line-send_iff}
use local_messenger.Main.Commands.History.{execute-history-send}
use local_messenger.Main.Callbacks.{found_contact, on_peer_found}
use local_messenger.Main.Callbacks.Found.{on_peer_found_twice}
use local_messenger.Main.Callbacks.Arrival.{arrive, last_message-arrive}
use local_messenger.Session
use local_messenger.Session.Read.{receive_all}
use local_messenger.Main.Launch.{own_key, no_sessions}
use local_messenger.Main.Launch.Known.{own_discovery}

abbrev address : Bytes
address = codes "26.0.0.1"

abbrev app : App
app = record { db = two_contacts; network = record { sessions = []; store = λ i. new_session } }

parse_line-send_iff_example :
    (parse_line (codes "/send 26.0.0.1 yo yo") ≡ send address (codes "yo yo")) ↔ (
      LacksSpace address
      × (codes "/send 26.0.0.1 yo yo" ≡ codes "/send " ++ (address ++ (32 ∷ codes "yo yo"))))
parse_line-send_iff_example =
    parse_line-send_iff (codes "/send 26.0.0.1 yo yo") address (codes "yo yo")

abbrev nameless : PeerInfo
nameless = record {
  ip = address;
  port = 7777;
  username = codes "N";
  public_key = [];
  version = [];
  last_seen = 0;
}

abbrev other : PeerInfo
other = record nameless { ip = codes "26.0.0.2"; username = codes "O" }

on_peer_found_twice_example :
    find_by_public_key [] (on_peer_found toy now other (on_peer_found toy now nameless app).0).0.db
    ≡ some (
        merged now
          (found_contact toy other)
          (some (merged now (found_contact toy nameless) (find_by_public_key [] two_contacts))))
on_peer_found_twice_example =
    on_peer_found_twice toy now now nameless other app refl (omega arith) (omega arith)

abbrev sent : App
sent =
    (execute (by_insertion updated) (by_insertion created) (λ p q. true) now []
      (send address (codes "yo")) app).0

-- Only Alice has messages, and the address is Bob's, whose row is the newest.
bob_is_silent : AreOlder 2 30 two_contacts
bob_is_silent x k e =
    Or.elim le_prop (eq-or-mem_of_mem-cons k) (λ one. omega (arith, ap (λ r. r.created_at) one))
      (λ rest.
        Or.elim le_prop (eq-or-mem_of_mem-cons rest)
          (λ two. omega (arith, ap (λ r. r.created_at) two))
          (λ nowhere. absurd (not-mem-nil nowhere)))

execute-history-send_example :
    (earlier : List Output) × ((execute
        (by_insertion updated)
        (by_insertion created)
        (λ p q. true)
        now
        []
        (history address)
        sent).2
      ≡ earlier ++ (history_line 30 false (codes "yo") ∷ []))
unfolding execute find_by_ip row_to_contact by_insertion select Bytes-discrete dec_le send_to find
    insert select_one
execute-history-send_example =
    execute-history-send (by_insertion updated) (by_insertion created) (λ p q. true) now now []
      address (codes "yo") (row_to_contact bob) app sent (sent_line address (codes "yo") ∷ []) refl
      bob_is_silent refl

abbrev settings : AppSettings
settings = record default_settings {
  username = codes "Alice";
  data_dir = codes "D";
  download_dir = codes "L";
}

abbrev started : Settled
started = record {
  manager = record { settings = settings; file = some (10 ∷ entries (to_json sample settings)) };
  cfg = settings;
  username = codes "Alice";
}

settle_again_example :
    settle sample false (codes "E") (codes "M") none started.manager.file ≡ some started
unfolding settle default_settings to_json new_manager update
settle_again_example =
    settle_again sample sample-IsJsonLibrary (codes "D") (codes "L") (codes "E") (codes "M")
      (some (codes "Alice")) none false started (λ e. cc)
      (record { tcp_bound = omega arith; udp_bound = omega arith; file_bound = omega arith }) refl

-- A program that starts with those settings, and a peer that hears it.
abbrev key : Bytes
key = own_key toy (1 ∷ (2 ∷ []))

abbrev starting : UdpDiscovery
starting = own_discovery (codes "Alice") 7777 7778 key

abbrev launched : Service
launched = record {
  network = no_sessions;
  tcp_server = some (record { port = 7777; listening = true; running = true; accepting = true });
  discovery =
      some (record starting { receiving = true; broadcast_timer = true; timeout_timer = true });
  work_guard = true;
  stopped = false;
  threads = 8;
}

abbrev text : Bytes
text = 4 ∷ entries (beacon sample starting)

abbrev peer : UdpDiscovery
peer = record starting { my_username = codes "Bob"; my_public_key = codes "b" }

-- Bob says something for the first time.
last_message-arrive_example :
    (last_message
        (by_insertion created)
        2
        (arrive
          (by_insertion updated)
          now
          address
          (receive_all
            (serialize (make_packet msg_text (codes "yo")))
            (Session.start new_session)).events
          app).0.db
      ≡ some (record (text_message incoming (codes "yo") (row_to_contact bob)) {
        id = 3;
        created_at = 30;
      }))
    × (unread_count 2
          (arrive
            (by_insertion updated)
            now
            address
            (receive_all
              (serialize (make_packet msg_text (codes "yo")))
              (Session.start new_session)).events
            app).0.db
        ≡ unread_count 2 two_contacts + 1)
    × ((arrive
          (by_insertion updated)
          now
          address
          (receive_all
            (serialize (make_packet msg_text (codes "yo")))
            (Session.start new_session)).events
          app).1
        ≢ thrown)
unfolding find_by_ip row_to_contact by_insertion select Bytes-discrete dec_le Session.start
last_message-arrive_example =
    last_message-arrive (by_insertion updated) (by_insertion created) now address (codes "yo")
      (row_to_contact bob) (Session.start new_session) app refl (omega arith) refl bob_is_silent
