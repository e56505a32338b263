-- ===== src/Settings.antt =====
-- libs/settings/src/settings.service.ts: settings are read through Redis and written to the database.
-- Texts are lists of character codes; `J` are the values of JSON that are neither texts nor null.
pub mod Defaults
pub mod Reading
pub mod Writing
mod Tests
use ocean_chat_private.Prelude.{
  ℕ, zero, suc, List, [], ◌∷◌, Option, none, some, Bool, false, Result, ok, err, ◌>>=◌, ◌≡◌,
}
use ocean_chat_private.Exceptions.{Exception}

abbrev pub Text : Type 0
Text = List ℕ

-- A value; null is `none` of an option.
pub data SettingValue (J : Type 0) : Type 0 where
  text : Text → SettingValue J
  structured : J → SettingValue J

-- What `getOrSet` resolves to: null, the cached text, or the value that was fetched.
pub data Got (J : Type 0) : Type 0 where
  nothing : Got J
  raw : Text → Got J
  fetched : SettingValue J → Got J

-- `JSON.parse` and `JSON.stringify`: `none` where parsing throws, `some none` for null. `has_date` tells whether a
-- value is a Date or holds one, which SettingValue allows and JSON turns into a text.
pub record Json (J : Type 0) : Type 0 where
  pub parse : Text → Option (Option (SettingValue J))
  pub stringify : J → Text
  pub has_date : J → Bool
  pub null_text : Text

-- What is relied on: a value without a Date, and null, are parsed again from their own texts.
pub record IsJson {J : Type 0} (json : Json J) : Type 0 where
  pub parse-stringify :
      (j : J) → json.has_date j ≡ false → json.parse (json.stringify j) ≡ some (some (structured j))
  pub parse_null : json.parse json.null_text ≡ some none

module _ {J : Type 0} (json : Json J) where
  -- The text under which a value is cached, by `RedisService.set` and by `_loadAllSettingsToCache`: a text
  -- is stored as it is.
  unfoldable pub value_to_cache : Option (SettingValue J) → Text
  value_to_cache none = json.null_text
  value_to_cache (some (text t)) = t
  value_to_cache (some (structured j)) = json.stringify j

  -- `JSON.parse`, and the text itself where that throws.
  abbrev pub parsed_or : Text → Option (Option (SettingValue J)) → Option (SettingValue J)
  parsed_or t none = some (text t)
  parsed_or t (some v) = v

  -- The answer to what `getOrSet` found; `none` where it found null and the loop goes on.
  unfoldable pub answer_of : Got J → Option (Option (SettingValue J))
  answer_of nothing = none
  answer_of (raw t) = some (parsed_or t (json.parse t))
  answer_of (fetched (text t)) = some (parsed_or t (json.parse t))
  answer_of (fetched (structured j)) = some (some (structured j))

  abbrev pub or_retry :
      Option (Option (SettingValue J))
      → Result Exception (Option (SettingValue J))
      → Result Exception (Option (SettingValue J))
  or_retry none next = next
  or_retry (some v) next = ok v

  -- `getSettingValue`: the attempts from number `i` on, of which `left` are left. `get_or_set` gives the
  -- outcome of each.
  unfoldable pub attempts :
      (ℕ → Result Exception (Got J)) → ℕ → ℕ → Result Exception (Option (SettingValue J))
  unfolding answer_of
  attempts get_or_set zero i = ok none
  attempts get_or_set (suc left) i =
      let rest = attempts get_or_set left (suc i) in
      get_or_set i >>= λ got. or_retry (answer_of got) rest

  unfoldable pub get_setting_value :
      ℕ → (ℕ → Result Exception (Got J)) → Result Exception (Option (SettingValue J))
  unfolding attempts
  get_setting_value retries get_or_set = attempts get_or_set retries 0
