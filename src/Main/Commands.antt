-- ===== src/Main/Commands.antt =====
-- The lines of the console: which command a line is, and what a command does.
pub mod Parsing
pub mod History
use mathlib.Core.Option
use local_messenger.Common.{
  ℕ, ◌≡◌, ◌==◌, Bool, true, false, if◌then◌else◌, ite, List, [], ◌∷◌, ◌++◌, map, Option, none, some,
  Bytes, Bytes-discrete, codes, take, drop,
}
use local_messenger.Protocol.Types.{msg_text}
use local_messenger.Protocol.{make_packet}
use local_messenger.Discovery.{PeerInfo}
use local_messenger.Network.{NetworkManager, is_connected}
use local_messenger.Storage.{Stamp, Database}
use local_messenger.Storage.Sql.{OrderBy}
use local_messenger.Storage.Contacts.{Contact, updated, find_by_ip}
use local_messenger.Storage.Messages.{
  Message, MessageDirection, incoming, outgoing, created, get_by_contact,
}
use local_messenger.Storage.Messages
use local_messenger.Main.{App, End, returned, blocked, thrown, ◌>>◌, skip, send_packet, store_text}

pub data Command : Type 0 where
  nothing quit peers send_usage unknown : Command
  send : Bytes → Bytes → Command
  history : Bytes → Command
  search : Bytes → Command

-- What a command prints, a line each.
pub data Output : Type 0 where
  no_peers send_help not_found unknown_command : Output
  peer_line : PeerInfo → Bool → Output
  sent_line : Bytes → Bytes → Output
  no_contact : Bytes → Output
  history_line : ℕ → Bool → Bytes → Output
  search_line : ℕ → Bytes → Output

-- `rest.find(' ')`: the text before the first space and the text after it.
unfoldable pub split_space : Bytes → Option (Bytes × Bytes)
split_space [] = none
split_space (c ∷ cs) =
    if c == 32 then some ([], cs) else Option.map (λ p. (c ∷ p.0, p.1)) (split_space cs)

unfoldable pub send_command : Option (Bytes × Bytes) → Command
send_command none = send_usage
send_command (some (ip, text)) = send ip text

-- `line.substr(0, n) == prefix`
abbrev pub has_prefix : (prefix line : Bytes) (n : ℕ) → Dec (take n line ≡ prefix)
has_prefix prefix line n = Bytes-discrete (take n line) prefix

unfoldable pub parse_nonempty : Bytes → Command
unfolding split_space send_command
parse_nonempty line = ite (Bytes-discrete line (codes "/quit")) quit (
    ite (Bytes-discrete line (codes "/exit")) quit (
      ite (Bytes-discrete line (codes "/peers")) peers (
        ite (has_prefix (codes "/send ") line 6) (send_command (split_space (drop 6 line))) (
          ite (has_prefix (codes "/history ") line 9) (history (drop 9 line))
            (ite (has_prefix (codes "/search ") line 8) (search (drop 8 line)) unknown)))))

unfoldable pub parse_line : Bytes → Command
unfolding parse_nonempty
parse_line [] = nothing
parse_line (c ∷ line) = parse_nonempty (c ∷ line)

unfoldable pub peer_lines : NetworkManager → List PeerInfo → List Output
peer_lines network [] = no_peers ∷ []
peer_lines network (p ∷ ps) =
    map (λ (q : PeerInfo). peer_line q (is_connected q.ip network)) (p ∷ ps)

abbrev pub is_incoming : MessageDirection → Bool
is_incoming incoming = true
is_incoming _ = false

unfoldable pub history_lines : OrderBy created → Database → Bytes → Option Contact → List Output
history_lines newest db ip none = no_contact ip ∷ []
history_lines newest db ip (some c) =
    map (λ (m : Message). history_line m.created_at (is_incoming m.direction) m.content)
      (get_by_contact newest c.id 20 0 db)

unfoldable pub search_lines : List Message → List Output
search_lines [] = not_found ∷ []
search_lines (m ∷ ms) = map (λ (x : Message). search_line x.created_at x.content) (m ∷ ms)

-- `/send`: the packet first, then the message, then the line.
unfoldable pub run_send : OrderBy updated → Stamp → Bytes → Bytes → App → App × End
unfolding send_packet store_text
run_send by_update t ip text = do
  send_packet ip (make_packet msg_text text)
  store_text by_update t outgoing ip text

abbrev pub lines_if : List Output → End → List Output
lines_if out returned = out
lines_if out blocked = []
lines_if out thrown = []

-- The default limit of search.
unfoldable pub search_limit : ℕ
search_limit = 50

-- What is discovered comes from the discovery; `like` is SQLite's LIKE.
unfoldable pub execute :
    OrderBy updated
    → OrderBy created
    → (Bytes → Bytes → Bool)
    → Stamp
    → List PeerInfo
    → Command
    → App
    → App × End × List Output
unfolding run_send peer_lines history_lines search_lines search_limit
execute by_update newest like t discovered nothing app = (app, returned, [])
execute by_update newest like t discovered quit app = (app, returned, [])
execute by_update newest like t discovered peers app =
    (app, returned, peer_lines app.network discovered)
execute by_update newest like t discovered send_usage app = (app, returned, send_help ∷ [])
execute by_update newest like t discovered (send ip text) app =
    let (app', end) = run_send by_update t ip text app in
    (app', end, lines_if (sent_line ip text ∷ []) end)
execute by_update newest like t discovered (history ip) app =
    (app, returned, history_lines newest app.db ip (find_by_ip by_update ip app.db))
execute by_update newest like t discovered (search query) app =
    (app, returned, search_lines (Messages.search newest like query search_limit app.db))
execute by_update newest like t discovered unknown app = (app, returned, unknown_command ∷ [])
