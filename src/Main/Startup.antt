-- ===== src/Main/Startup.antt =====
-- What main does before the network starts: the folders, and the settings with the user's name.
pub mod Settling
use local_messenger.Common.{Bool, true, false, [], ◌∷◌, ◌++◌, Option, none, some, Bytes, codes}
use local_messenger.Json.{JsonLibrary}
use local_messenger.Storage.Settings.{AppSettings, SettingsManager, new_manager, get, update}

-- `_WIN32` or not; on Windows the folders use the backslash.
pub data Platform : Type 0 where
  windows posix : Platform

abbrev backslash : Bytes
backslash = 92 ∷ []

-- The arguments are what std::getenv gives for APPDATA and HOME.
unfoldable pub get_data_dir : Platform → Option Bytes → Option Bytes → Bytes
get_data_dir windows (some appdata) home = appdata ++ (backslash ++ codes "LocalMessenger")
get_data_dir windows none home = codes "LocalMessenger"
get_data_dir posix appdata (some home) = home ++ codes "/.local/share/LocalMessenger"
get_data_dir posix appdata none = codes "LocalMessenger"

-- The arguments are what std::getenv gives for USERPROFILE and HOME.
unfoldable pub get_download_dir : Platform → Option Bytes → Option Bytes → Bytes
get_download_dir windows (some profile) home =
    profile ++ (backslash ++ (codes "Downloads" ++ (backslash ++ codes "MessengerFiles")))
get_download_dir windows none home = codes "Downloads"
get_download_dir posix profile (some home) = home ++ codes "/Downloads/MessengerFiles"
get_download_dir posix profile none = codes "Downloads"

-- The settings manager, the local copy `cfg` and the user's name; `none` where a call has thrown.
pub record Settled : Type 0 where
  pub manager : SettingsManager
  pub cfg : AppSettings
  pub username : Bytes

abbrev unless_thrown {ℓ} :
    {A : Type ℓ} → (SettingsManager → Option A) → SettingsManager × Bool → Option A
unless_thrown next (m, false) = next m
unless_thrown next (m, true) = none

module _ (lib : JsonLibrary) (can_write : Bool) where
  -- `if (argc > 1)`
  unfoldable pub settle_name : Option Bytes → AppSettings → SettingsManager → Option Settled
  settle_name none cfg m = some (record { manager = m; cfg = cfg; username = cfg.username })
  settle_name (some arg) cfg m =
      let named : AppSettings = record cfg { username = arg } in
      unless_thrown (λ m'. some (record { manager = m'; cfg = named; username = arg }))
        (update lib can_write named m)

  -- `if (cfg.data_dir.empty())`
  unfoldable pub settle_dirs :
      Bytes → Bytes → Bytes → Option Bytes → AppSettings → SettingsManager → Option Settled
  unfolding settle_name
  settle_dirs [] data_dir download_dir arg cfg m =
      let filled : AppSettings = record cfg { data_dir = data_dir; download_dir = download_dir } in
      unless_thrown (settle_name arg filled) (update lib can_write filled m)
  settle_dirs (b ∷ bs) data_dir download_dir arg cfg m = settle_name arg cfg m

  -- The manager is made from the file, and `cfg` is its copy of the settings.
  unfoldable pub settle : Bytes → Bytes → Option Bytes → Option Bytes → Option Settled
  unfolding settle_dirs get
  settle data_dir download_dir arg file =
      unless_thrown (λ m. settle_dirs (get m).data_dir data_dir download_dir arg (get m) m)
        (new_manager lib can_write file)
