-- ===== src/Settings/Tests.antt =====
-- libs/settings/src/settings.service.ts with a JSON of one Boolean.
use ocean_chat_private.Prelude.{
  ℕ, ◌≡◌, inl, refl, List, [], ◌∷◌, Option, none, some, Bool, true, false, Result, ok, arith, ◌==◌,
  if◌then◌else◌,
}
use ocean_chat_private.Exceptions.{Exception}
use ocean_chat_private.Settings.{
  SettingValue, text, structured, Got, nothing, raw, fetched, Json, IsJson, value_to_cache,
  get_setting_value,
}
use ocean_chat_private.Settings.Reading.{IsPlain, cached_setting_returned, json_text_changes_type}

-- The texts 1, 0 and 9 stand for true, false and null; nothing else is JSON.
abbrev parse_digit : ℕ → Option (Option (SettingValue Bool))
parse_digit n =
    if n == 1
    then some (some (structured true))
    else (if n == 0 then some (some (structured false)) else (if n == 9 then some none else none))

abbrev parse : List ℕ → Option (Option (SettingValue Bool))
parse [] = none
parse (n ∷ []) = parse_digit n
parse (n ∷ m ∷ rest) = none

abbrev json : Json Bool
json = record {
  parse = parse;
  stringify = λ b. if b then 1 ∷ [] else 0 ∷ [];
  has_date = λ b. false;
  null_text = 9 ∷ [];
}

parse-stringify :
    (j : Bool)
    → json.has_date j ≡ false
    → json.parse (json.stringify j) ≡ some (some (structured j))
parse-stringify true h = refl
parse-stringify false h = refl

json-IsJson : IsJson json
json-IsJson = record { parse-stringify = parse-stringify; parse_null = refl }

-- The first attempt finds null, the others find false.
abbrev second_time : ℕ → Result Exception (Got Bool)
second_time n = if n == 0 then ok nothing else ok (raw (0 ∷ []))

cached_setting_returned_run : get_setting_value json 3 second_time ≡ ok (some (structured false))
unfolding value_to_cache IsPlain
cached_setting_returned_run =
    cached_setting_returned json 3 1 (some (structured false)) second_time json-IsJson (omega arith)
      (λ n l. ground arith) refl refl

abbrev text_one : ℕ → Result Exception (Got Bool)
text_one n = ok (fetched (text (1 ∷ [])))

json_text_changes_type_run : get_setting_value json 3 text_one ≡ ok (some (structured true))
json_text_changes_type_run =
    json_text_changes_type json 3 (1 ∷ []) (some (structured true)) text_one (omega arith) refl
      (inl refl)
