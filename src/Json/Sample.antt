-- ===== src/Json/Sample.antt =====
-- A small library with the documented behaviour, for the examples: an object is the list of its
-- members, and its text has a length before each part. Like UTF-8 to nlohmann::json, only strings of
-- bytes below 128 can be dumped.
use local_messenger.Common.{
  ℕ, zero, suc, ◌%◌, ◌^◌, ◌≡◌, refl, ap, Bool, true, ◌&&◌, [], ◌∷◌, ◌++◌, Option, none, some, Bytes,
  length, take, drop, take-append, drop-append, ltb, if◌then◌else◌, arith,
}
use local_messenger.Common.Map.{Map, find}
use local_messenger.Json.{Value, string, number, JsonLibrary, IsJsonLibrary, is_some}

unfoldable pub entries : Map Value → Bytes
entries [] = []
entries ((k, string s) ∷ m) = length k ∷ (k ++ (0 ∷ (length s ∷ (s ++ entries m))))
entries ((k, number n) ∷ m) = length k ∷ (k ++ (1 ∷ (n ∷ entries m)))

abbrev cons : Bytes → Value → Option (Map Value) → Option (Map Value)
cons k v none = none
cons k v (some m) = some ((k, v) ∷ m)

abbrev member : (Bytes → Option (Map Value)) → Bytes → Bytes → Option (Map Value)
member read k [] = none
member read k (tag ∷ []) = none
member read k (zero ∷ (n ∷ bs)) = cons k (string (take n bs)) (read (drop n bs))
member read k (suc tag ∷ (n ∷ bs)) = cons k (number n) (read bs)

unfoldable pub read_entries : ℕ → Bytes → Option (Map Value)
read_entries zero bs = some []
read_entries (suc count) [] = none
read_entries (suc count) (n ∷ bs) = member (read_entries count) (take n bs) (drop n bs)

read_entries-entries : (m : Map Value) → read_entries (length m) (entries m) ≡ some m
unfolding entries read_entries
read_entries-entries [] = refl
read_entries-entries ((k, string s) ∷ m) =
    rw (take-append k, drop-append k, take-append s, drop-append s, read_entries-entries m)
read_entries-entries ((k, number n) ∷ m) = rw (take-append k, drop-append k, read_entries-entries m)

abbrev is_text : Bytes → Bool
is_text [] = true
is_text (b ∷ bs) = ltb b 128 && is_text bs

abbrev is_dumped : Map Value → Bool
is_dumped [] = true
is_dumped ((k, string s) ∷ m) = is_text s && is_dumped m
is_dumped ((k, number n) ∷ m) = is_dumped m

abbrev as_string : Option Value → Option Bytes
as_string (some (string s)) = some s
as_string _ = none

abbrev as_u16 : Option Value → Option ℕ
as_u16 (some (number n)) = some (n % 2 ^ 16)
as_u16 _ = none

abbrev parse_text : Bytes → Option (Map Value)
parse_text [] = none
parse_text (count ∷ bs) = read_entries count bs

abbrev dump_text : Map Value → Option Bytes
dump_text m = if is_dumped m then some (length m ∷ entries m) else none

abbrev pub sample : JsonLibrary
sample = record {
  Json = Map Value;
  object = λ m. m;
  is_object = λ m. true;
  contains = λ k m. is_some (find k m);
  get_string = λ k m. as_string (find k m);
  get_u16 = λ k m. as_u16 (find k m);
  parse = parse_text;
  dump = dump_text;
}

parse-dump_text :
    (m : Map Value) (text : Bytes) → dump_text m ≡ some text → parse_text text ≡ some m
parse-dump_text m text e = ground (arith, e, read_entries-entries m)

pub sample-IsJsonLibrary : IsJsonLibrary sample
sample-IsJsonLibrary = record {
  is_object-object = λ m. refl;
  contains-object = λ k m. refl;
  get_string-object = λ k s m e. ap as_string e;
  get_u16-object = λ k n m e. ap as_u16 e;
  parse-empty = refl;
  parse-dump = parse-dump_text;
}
