-- ===== src/Settings/Writing/Tests.antt =====
-- libs/settings/src: the defaults, an update and a late reader, with a JSON of small numbers and Booleans.
use ocean_chat_private.Prelude.{
  ℕ, ◌≡◌, ◌≢◌, refl, [], ◌∷◌, Option, none, some, Bool, true, false, Result, ok, arith, ◌==◌,
  if◌then◌else◌, same_text, same_text_complete,
}
use ocean_chat_private.Exceptions.{Exception}
use ocean_chat_private.Redis.Service.{mset, expire, set}
use ocean_chat_private.Redis.Service.Table.{Table, table, table-IsRedis}
use ocean_chat_private.Settings.{
  Text, SettingValue, structured, Got, Json, IsJson, value_to_cache, get_setting_value,
}
use ocean_chat_private.Settings.Reading.{IsPlain}
use ocean_chat_private.Settings.Defaults.{
  Setting, default_setting, default_settings, accounts_username_min_length,
  accounts_username_max_length, int,
}
use ocean_chat_private.Settings.Writing.{
  Collection, Faults, get_cache_key, find_by_key, create_if_not_exists, create_defaults,
  mset_payload, expire_all, load_all_settings_to_cache, on_module_init, set_setting_value,
}
use ocean_chat_private.Settings.Writing.Seeding.{Distinct}
use ocean_chat_private.Settings.Writing.Warming.{first_found, started_settings_read}
use ocean_chat_private.Settings.Writing.Updates.{
  value_of, stored_value, set_setting_value_lem, late_fill_serves_old,
}

data Scalar : Type 0 where
  number : ℕ → Scalar
  boolean : Bool → Scalar
  date : ℕ → Scalar

-- The texts `0n` for a number n, `t` and `f` for the Booleans, and `n` for null.
abbrev parse_one : ℕ → Option (Option (SettingValue Scalar))
parse_one c =
    if c == 116
    then some (some (structured (boolean true)))
    else if c == 102
    then some (some (structured (boolean false)))
    else if c == 110
    then some none
    else none

abbrev parse : Text → Option (Option (SettingValue Scalar))
parse [] = none
parse (c ∷ []) = parse_one c
parse (c ∷ n ∷ []) = if c == 48 then some (some (structured (number n))) else none
parse (c ∷ n ∷ d ∷ rest) = none

abbrev stringify : Scalar → Text
stringify (number n) = 48 ∷ n ∷ []
stringify (boolean true) = 116 ∷ []
stringify (boolean false) = 102 ∷ []
stringify (date t) = 34 ∷ t ∷ 34 ∷ []

abbrev is_date : Scalar → Bool
is_date (date t) = true
is_date _ = false

abbrev json : Json Scalar
json = record { parse = parse; stringify = stringify; has_date = is_date; null_text = 110 ∷ [] }

parse-stringify :
    (j : Scalar)
    → json.has_date j ≡ false
    → json.parse (json.stringify j) ≡ some (some (structured j))
parse-stringify (number n) h = refl
parse-stringify (boolean true) h = refl
parse-stringify (boolean false) h = refl
parse-stringify (date t) h = cc

json-IsJson : IsJson json
json-IsJson = record { parse-stringify = parse-stringify; parse_null = refl }

abbrev no_faults : Faults
no_faults = record { create = λ n. false; find = false; mset = false; expire = λ n. false }

abbrev empty : Table
empty = λ k. none

abbrev jitter : ℕ → ℕ
jitter n = n

-- The minimal length was set to 5 before the first start.
abbrev chosen : Setting Scalar
chosen = default_setting number boolean accounts_username_min_length (structured (number 5)) int

abbrev after_start : Collection Scalar × Table × Result Exception (Unit {0})
after_start =
    on_module_init json table true (default_settings number boolean) no_faults jitter 1000
      (chosen ∷ []) empty

abbrev read : ℕ → Result Exception (Got Scalar)
read n = first_found (table.get (get_cache_key accounts_username_min_length) 9000 after_start.1)

started_settings_read_example :
    (find_by_key accounts_username_min_length after_start.0 ≡ some chosen)
    × (get_setting_value json 3 read ≡ ok (some (structured (number 5))))
unfolding on_module_init create_defaults create_if_not_exists load_all_settings_to_cache expire_all
    mset mset_payload expire default_settings find_by_key same_text value_to_cache Distinct IsPlain
started_settings_read_example =
    started_settings_read json table (default_settings number boolean) no_faults jitter 1000 9000 3
      (chosen ∷ []) after_start.0 empty after_start.1 accounts_username_min_length chosen read
      table-IsRedis json-IsJson (tt, tt) refl refl (omega arith) (omega arith) refl refl

min-ne-max : accounts_username_max_length ≢ accounts_username_min_length
unfolding same_text
min-ne-max = same_text_complete accounts_username_max_length accounts_username_min_length refl

set_setting_value_lem_run :
    (s : Setting Scalar) × (s.value ≡ some (structured (number 8)))
    × ((set_setting_value json table false false accounts_username_min_length
          (structured (number 8))
          (chosen ∷ [])
          empty).2
        ≡ ok (some s))
    × (find_by_key accounts_username_min_length
          (set_setting_value json table false false accounts_username_min_length
            (structured (number 8))
            (chosen ∷ [])
            empty).0
        ≡ some s)
    × (table.get
          (get_cache_key accounts_username_min_length)
          9000
          (set_setting_value json table false false accounts_username_min_length
            (structured (number 8))
            (chosen ∷ [])
            empty).1
        ≡ none)
    × (find_by_key accounts_username_max_length
          (set_setting_value json table false false accounts_username_min_length
            (structured (number 8))
            (chosen ∷ [])
            empty).0
        ≡ find_by_key accounts_username_max_length (chosen ∷ []))
    × (table.get
          (get_cache_key accounts_username_max_length)
          9000
          (set_setting_value json table false false accounts_username_min_length
            (structured (number 8))
            (chosen ∷ [])
            empty).1
        ≡ table.get (get_cache_key accounts_username_max_length) 9000 empty)
set_setting_value_lem_run =
    set_setting_value_lem json table table-IsRedis accounts_username_min_length
      accounts_username_max_length (structured (number 8)) (chosen ∷ []) empty 9000 min-ne-max

late_fill_serves_old_run :
    (value_of (
        find_by_key accounts_username_min_length
          (set_setting_value json table false false accounts_username_min_length
            (structured (number 8))
            (chosen ∷ [])
            empty).0)
      ≡ some (some (structured (number 8))))
    × (table.get (get_cache_key accounts_username_min_length) 9000 (
          set table
            (get_cache_key accounts_username_min_length)
            (stored_value json table table-IsRedis (some (structured (number 5))))
            (some 3607)
            2000
            (set_setting_value json table false false accounts_username_min_length
              (structured (number 8))
              (chosen ∷ [])
              empty).1)
        ≡ some (48 ∷ 5 ∷ []))
unfolding find_by_key same_text value_to_cache
late_fill_serves_old_run =
    late_fill_serves_old json table table-IsRedis accounts_username_min_length
      (structured (number 5)) (structured (number 8)) (chosen ∷ []) empty 7 2000 9000 refl
      (omega arith)
