-- ===== src/Storage/Settings/Examples.antt =====
-- The settings of a user, saved and loaded.
use local_messenger.Common.{◌≡◌, refl, true, false, [], ◌∷◌, none, some, Bytes, codes, arith}
use local_messenger.Json.Sample.{sample, sample-IsJsonLibrary, entries}
use local_messenger.Storage.Settings.{
  AppSettings, default_settings, SettingsManager, to_json, new_manager,
}
use local_messenger.Storage.Settings
use local_messenger.Storage.Settings.File.{new_manager-update}

abbrev alices_settings : AppSettings
alices_settings = record default_settings { username = codes "Alice"; tcp_port = 9000 }

abbrev first_run : SettingsManager
first_run = record { settings = default_settings; file = none }

abbrev alices_text : Bytes
alices_text = 10 ∷ entries (to_json sample alices_settings)

new_manager-update_example :
    (Settings.update sample true alices_settings first_run
      ≡ (record { settings = alices_settings; file = some alices_text }, false))
    × (new_manager sample true (some alices_text)
        ≡ (record { settings = alices_settings; file = some alices_text }, false))
unfolding to_json default_settings
new_manager-update_example =
    new_manager-update sample sample-IsJsonLibrary alices_settings first_run alices_text true
      (record { tcp_bound = omega arith; udp_bound = omega arith; file_bound = omega arith }) refl

-- A name with a byte that no UTF-8 text has.
abbrev bad_settings : AppSettings
bad_settings = record default_settings { username = 255 ∷ [] }
