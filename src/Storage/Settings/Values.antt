-- ===== src/Storage/Settings/Values.antt =====
-- The key-value table of the settings.
use local_messenger.Common.{ite, Bytes, Bytes-discrete, arith, ◌≡◌}
use local_messenger.Common.Map.{find-assign}
use local_messenger.Storage.{Database}
use local_messenger.Storage.Settings.{get_value, set_value, value_or}

-- After set_value a key has the value written, and every other key the value or the default that it
-- had.
pub get_value-set_value :
    (key value other default_val : Bytes) (db : Database)
    → get_value other default_val (set_value key value db)
      ≡ ite (Bytes-discrete key other) value (get_value other default_val db)
unfolding get_value set_value value_or
get_value-set_value key value other default_val db =
    ground (arith, find-assign key other value db.settings)
