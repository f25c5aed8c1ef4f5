-- ===== src/Storage/Settings/File.antt =====
-- settings.json: what is saved is what the next start loads.
use local_messenger.Common.{
  ℕ, ◌<◌, ◌^◌, ◌%◌, ◌≡◌, refl, [], none, some, Bytes, codes, true, false, Bool, arith,
}
use local_messenger.Common.Map.{Map, find}
use local_messenger.Json.{Value, string, number, JsonLibrary, IsJsonLibrary}
use local_messenger.Storage.Settings.{
  AppSettings, default_settings, SettingsManager, to_json, from_json, read_string, read_u16,
  written, update, load, loaded, new_manager,
}

-- The ports are values of uint16_t.
pub record IsSettings (s : AppSettings) : Type 0 where
  pub tcp_bound : s.tcp_port < 2 ^ 16
  pub udp_bound : s.udp_port < 2 ^ 16
  pub file_bound : s.file_port < 2 ^ 16

module _ (lib : JsonLibrary) (is_lib : IsJsonLibrary lib) where
  read_string-object :
      (m : Map Value) (k s old : Bytes)
      → find k m ≡ some (string s)
      → read_string lib (lib.object m) k old ≡ some s
  unfolding read_string
  read_string-object m k s old e =
      rw (is_lib.contains-object k m, e, is_lib.get_string-object k s m e)

  read_u16-object :
      (m : Map Value) (k : Bytes) (n old : ℕ)
      → n < 2 ^ 16
      → find k m ≡ some (number n)
      → read_u16 lib (lib.object m) k old ≡ some n
  unfolding read_u16
  read_u16-object m k n old h e =
      let small : n % 2 ^ 16 ≡ n = omega arith in
      rw (is_lib.contains-object k m, e, is_lib.get_u16-object k n m e, small)

  from_json-to_json :
      (s old : AppSettings) → IsSettings s → from_json lib (to_json lib s) old ≡ some s
  unfolding from_json to_json find
  from_json-to_json s old v = rw (
    read_string-object _ (codes "username") s.username old.username refl,
    read_string-object _ (codes "avatar_path") s.avatar_path old.avatar_path refl,
    read_u16-object _ (codes "tcp_port") s.tcp_port old.tcp_port v.tcp_bound refl,
    read_u16-object _ (codes "udp_port") s.udp_port old.udp_port v.udp_bound refl,
    read_u16-object _ (codes "file_port") s.file_port old.file_port v.file_bound refl,
    read_string-object _ (codes "data_dir") s.data_dir old.data_dir refl,
    read_string-object _ (codes "download_dir") s.download_dir old.download_dir refl,
    read_string-object _ (codes "theme") s.theme old.theme refl,
    read_string-object _ (codes "accent_color") s.accent_color old.accent_color refl,
    read_string-object _ (codes "password_hash") s.password_hash old.password_hash refl,
  )

  -- Settings with ports below 2 ^ 16 that update writes, where the file opens and the texts can be
  -- dumped, are those that a new manager loads from the file; neither call throws.
  pub new_manager-update :
      (s : AppSettings) (m : SettingsManager) (text : Bytes) (can_write : Bool)
      → IsSettings s
      → lib.dump (to_json lib s) ≡ some text
      → (update lib true s m ≡ (record { settings = s; file = some text }, false))
        × (new_manager lib can_write (some text)
            ≡ (record { settings = s; file = some text }, false))
  unfolding update new_manager load to_json
  new_manager-update s m text can_write v e = (
    rw (e, written),
    rw (is_lib.parse-dump _ text e, from_json-to_json s default_settings v, loaded),
  )

  pub update_loses :
      (s : AppSettings) (m : SettingsManager) (can_write : Bool)
      → lib.dump (to_json lib s) ≡ none
      → (update lib true s m ≡ (record { settings = s; file = some [] }, true))
        × (new_manager lib can_write (some [])
            ≡ (record { settings = default_settings; file = some [] }, false))
  unfolding update new_manager load to_json
  update_loses s m can_write e = (rw (e, written), rw (is_lib.parse-empty, loaded))
