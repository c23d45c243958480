-- ===== src/Json.antt =====
-- cJSON, as lib/linyaps_remote.c and lib/linyaps_local.c use it: a parameter of the model. The store
-- reads values through these questions only, and NULL has no answer to any of them.
pub mod Sample
use linyaps_store.Base.{Option, none, some, List, Bool, Str, ℤ}

-- `item` is cJSON_GetObjectItemCaseSensitive, `string` is `valuestring` if cJSON_IsString, `number`
-- is `(int64_t)valuedouble` if cJSON_IsNumber, `array` is the items if cJSON_IsArray, `first` is
-- `cJSON_GetArrayItem(_, 0)`, `parse` is cJSON_Parse, and `atoll` is libc's.
pub record Json : Type 1 where
  pub Value : Type 0
  pub item : Value → Str → Option Value
  pub string : Value → Option Str
  pub number : Value → Option ℤ
  pub array : Value → Option (List Value)
  pub first : Value → Option Value
  pub is_object : Value → Bool
  pub parse : Str → Option Value
  pub atoll : Str → ℤ

module _ (j : Json) where
  open j use {Value, item, string, number, array, first}

  abbrev pub item_of : Option Value → Str → Option Value
  item_of none field = none
  item_of (some v) field = item v field

  abbrev pub string_of : Option Value → Option Str
  string_of none = none
  string_of (some v) = string v

  abbrev pub number_of : Option Value → Option ℤ
  number_of none = none
  number_of (some v) = number v

  abbrev pub array_of : Option Value → Option (List Value)
  array_of none = none
  array_of (some v) = array v

  abbrev pub first_of : Option Value → Option Value
  first_of none = none
  first_of (some v) = first v
