-- ===== src/Json.antt =====
-- What the program uses of nlohmann::json, which is not part of the repository.
--
-- `get_string` and `get_u16` stand for `at(key).get_to(...)` into a std::string and a uint16_t, and
-- are `none` where that throws; `parse` and `dump` are `none` where they throw (`dump` on a string
-- that is not UTF-8).
pub mod Sample
use local_messenger.Common.{ℕ, ◌%◌, ◌^◌, ◌≡◌, Bool, true, false, [], Option, none, some, Bytes}
use local_messenger.Common.Map.{Map, find}

-- The members that the program writes.
pub data Value : Type 0 where
  string : Bytes → Value
  number : ℕ → Value

abbrev pub is_some {ℓ} : {A : Type ℓ} → Option A → Bool
is_some none = false
is_some (some a) = true

pub record JsonLibrary : Type 1 where
  pub Json : Type 0
  pub object : Map Value → Json
  pub is_object : Json → Bool
  pub contains : Bytes → Json → Bool
  pub get_string : Bytes → Json → Option Bytes
  pub get_u16 : Bytes → Json → Option ℕ
  pub parse : Bytes → Option Json
  pub dump : Json → Option Bytes

-- What the library's documentation says of them: an object has the members that it was made of, a
-- number is read as a uint16_t by a cast, the empty text is no JSON, and the dump of an object
-- parses to that object.
pub record IsJsonLibrary (lib : JsonLibrary) : Type 0 where
  pub is_object-object : (m : Map Value) → lib.is_object (lib.object m) ≡ true
  pub contains-object :
      (k : Bytes) (m : Map Value) → lib.contains k (lib.object m) ≡ is_some (find k m)
  pub get_string-object :
      (k s : Bytes) (m : Map Value)
      → find k m ≡ some (string s)
      → lib.get_string k (lib.object m) ≡ some s
  pub get_u16-object :
      (k : Bytes) (n : ℕ) (m : Map Value)
      → find k m ≡ some (number n)
      → lib.get_u16 k (lib.object m) ≡ some (n % 2 ^ 16)
  pub parse-empty : lib.parse [] ≡ none
  pub parse-dump :
      (m : Map Value) (text : Bytes)
      → lib.dump (lib.object m) ≡ some text
      → lib.parse text ≡ some (lib.object m)
