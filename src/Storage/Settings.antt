-- ===== src/Storage/Settings.antt =====
-- src/storage/SettingsManager.h and SettingsManager.cpp: the settings in memory and in
-- settings.json, and the key-value table `settings`.
pub mod File
pub mod Values
mod Examples
use local_messenger.Common.{
  ℕ, [], ◌∷◌, Option, none, some, Bytes, codes, true, false, Bool, if◌then◌else◌,
}
use local_messenger.Common.Chain.{◌>>=◌}
use local_messenger.Common.Map.{find, assign}
use local_messenger.Json.{Value, string, number, JsonLibrary}
use local_messenger.Storage.{Database}

pub record AppSettings : Type 0 where
  pub username : Bytes
  pub avatar_path : Bytes
  pub tcp_port : ℕ
  pub udp_port : ℕ
  pub file_port : ℕ
  pub data_dir : Bytes
  pub download_dir : Bytes
  pub theme : Bytes
  pub accent_color : Bytes
  pub password_hash : Bytes

unfoldable pub default_settings : AppSettings
default_settings = record {
  username = codes "User";
  avatar_path = [];
  tcp_port = 7777;
  udp_port = 7778;
  file_port = 7779;
  data_dir = [];
  download_dir = [];
  theme = codes "dark";
  accent_color = codes "#2B7FE0";
  password_hash = [];
}

-- The members `settings_` and what the file at `json_path_` holds, `none` where there is no file.
pub record SettingsManager : Type 0 where
  pub settings : AppSettings
  pub file : Option Bytes

module _ (lib : JsonLibrary) where
  unfoldable pub to_json : AppSettings → lib.Json
  to_json s = lib.object (
      (codes "username", string s.username)
      ∷ (codes "avatar_path", string s.avatar_path)
      ∷ (codes "tcp_port", number s.tcp_port)
      ∷ (codes "udp_port", number s.udp_port)
      ∷ (codes "file_port", number s.file_port)
      ∷ (codes "data_dir", string s.data_dir)
      ∷ (codes "download_dir", string s.download_dir)
      ∷ (codes "theme", string s.theme)
      ∷ (codes "accent_color", string s.accent_color)
      ∷ (codes "password_hash", string s.password_hash)
      ∷ [])

  -- `if (j.contains(k)) j.at(k).get_to(old);`
  unfoldable pub read_string : lib.Json → Bytes → Bytes → Option Bytes
  read_string j k old = if lib.contains k j then lib.get_string k j else some old

  unfoldable pub read_u16 : lib.Json → Bytes → ℕ → Option ℕ
  read_u16 j k old = if lib.contains k j then lib.get_u16 k j else some old

  unfoldable pub from_json : lib.Json → AppSettings → Option AppSettings
  unfolding read_string read_u16
  from_json j s = do
    username ← read_string j (codes "username") s.username
    avatar_path ← read_string j (codes "avatar_path") s.avatar_path
    tcp_port ← read_u16 j (codes "tcp_port") s.tcp_port
    udp_port ← read_u16 j (codes "udp_port") s.udp_port
    file_port ← read_u16 j (codes "file_port") s.file_port
    data_dir ← read_string j (codes "data_dir") s.data_dir
    download_dir ← read_string j (codes "download_dir") s.download_dir
    theme ← read_string j (codes "theme") s.theme
    accent_color ← read_string j (codes "accent_color") s.accent_color
    password_hash ← read_string j (codes "password_hash") s.password_hash
    some (record {
      username = username;
      avatar_path = avatar_path;
      tcp_port = tcp_port;
      udp_port = udp_port;
      file_port = file_port;
      data_dir = data_dir;
      download_dir = download_dir;
      theme = theme;
      accent_color = accent_color;
      password_hash = password_hash;
    })

  -- Opening a std::ofstream empties the file before `dump` is called. The flag says whether the call
  -- throws.
  unfoldable pub written : Option Bytes → SettingsManager → SettingsManager × Bool
  written none m = (record m { file = some [] }, true)
  written (some text) m = (record m { file = some text }, false)

  -- `can_write` says whether the std::ofstream opens.
  unfoldable pub save : Bool → SettingsManager → SettingsManager × Bool
  unfolding written to_json
  save can_write m = if can_write then written (lib.dump (to_json m.settings)) m else (m, false)

  -- A text that cannot be read leaves the settings as they are.
  unfoldable pub loaded : Option AppSettings → SettingsManager → SettingsManager
  loaded none m = m
  loaded (some s) m = record m { settings = s }

  unfoldable pub load_file : Bool → Option Bytes → SettingsManager → SettingsManager × Bool
  unfolding loaded from_json save default_settings
  load_file can_write none m = save can_write m
  load_file can_write (some text) m =
      (loaded (do j ← lib.parse text; from_json j default_settings) m, false)

  -- A file that is there can be opened.
  unfoldable pub load : Bool → SettingsManager → SettingsManager × Bool
  unfolding load_file
  load can_write m = load_file can_write m.file m

  -- The constructor, on what the file holds.
  unfoldable pub new_manager : Bool → Option Bytes → SettingsManager × Bool
  unfolding load default_settings
  new_manager can_write file = load can_write (record { settings = default_settings; file = file })

  unfoldable pub update : Bool → AppSettings → SettingsManager → SettingsManager × Bool
  unfolding save
  update can_write s m = save can_write (record m { settings = s })

unfoldable pub get : SettingsManager → AppSettings
get m = m.settings

unfoldable pub value_or : Bytes → Option Bytes → Bytes
value_or default_val none = default_val
value_or default_val (some v) = v

unfoldable pub get_value : Bytes → Bytes → Database → Bytes
unfolding value_or
get_value key default_val db = value_or default_val (find key db.settings)

unfoldable pub set_value : Bytes → Bytes → Database → Database
set_value key value db = record db { settings = assign key value db.settings }
