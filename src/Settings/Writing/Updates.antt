-- ===== src/Settings/Writing/Updates.antt =====
-- libs/settings/src/settings.service.ts: what is read after an update of a setting.
use ocean_chat_private.Prelude.{
  ℕ, ◌+◌, ◌*◌, ◌<◌, ◌≡◌, ◌≢◌, refl, ap, ◌∙◌, [], ◌∷◌, Option, none, some, false, ok, arith,
  same_text, same_text_sound, same_text_refl, lt→ltb, Bool-cases, inl, inr,
}
use ocean_chat_private.Redis.Service.{
  RedisClient, IsRedis, Value, raw, serialised, value_to_store, set_for, set,
}
use ocean_chat_private.Settings.{Text, SettingValue, text, structured, Json, value_to_cache}
use ocean_chat_private.Settings.Defaults.{Setting}
use ocean_chat_private.Settings.Writing.{
  Collection, get_cache_key, cache_ttl_seconds, find_by_key, upsert, set_setting_value,
}
use ocean_chat_private.Settings.Writing.Warming.{key-injective}

-- The value of a setting that is found.
abbrev pub value_of : {J : Type 0} → Option (Setting J) → Option (Option (SettingValue J))
value_of none = none
value_of (some s) = some s.value

module _ {J : Type 0} where
  find-upsert :
      (key : Text) (v : SettingValue J) (db : Collection J)
      → (s : Setting J) × (find_by_key key (upsert key v db) ≡ some s) × (s.value ≡ some v)
  unfolding find_by_key upsert
  find-upsert key v [] = (
    record { id = key; value = some v; type = none; group = none; i18n_label = none },
    rw (same_text_refl key) refl,
    refl,
  )
  find-upsert key v (x ∷ rest) = elim (Bool-cases (same_text x.id key)) [
    | inl same ↦ (record x { value = some v }, rw same (rw same refl), refl)
    | inr differs ↦
        (let (s, found, new) = find-upsert key v rest in (s, rw differs (rw differs found), new))
  ]

  find-upsert_other :
      (key other : Text) (v : SettingValue J) (db : Collection J)
      → other ≢ key
      → find_by_key other (upsert key v db) ≡ find_by_key other db
  unfolding find_by_key upsert
  find-upsert_other key other v [] d = ground (arith, same_text_sound key other)
  find-upsert_other key other v (x ∷ rest) d = ground (
    arith,
    find-upsert_other key other v rest d,
    same_text_sound x.id key,
    same_text_sound x.id other,
  )

module _ {J : Type 0} (json : Json J) (C : RedisClient) (law : IsRedis C) where
  -- After an update whose calls do not fail the setting has the new value and nothing is cached for it, so that
  -- it is read from the collection next; all other settings, and what is cached for them, are as before.
  pub set_setting_value_lem :
      (key other : Text) (v : SettingValue J) (db : Collection J) (redis : C.State) (later : ℕ)
      → other ≢ key
      → (s : Setting J) × (s.value ≡ some v)
        × ((set_setting_value json C false false key v db redis).2 ≡ ok (some s))
        × (find_by_key key (set_setting_value json C false false key v db redis).0 ≡ some s)
        × (C.get (get_cache_key key) later (set_setting_value json C false false key v db redis).1
            ≡ none)
        × (find_by_key other (set_setting_value json C false false key v db redis).0
            ≡ find_by_key other db)
        × (C.get (get_cache_key other) later (set_setting_value json C false false key v db redis).1
            ≡ C.get (get_cache_key other) later redis)
  unfolding set_setting_value
  set_setting_value_lem key other v db redis later d =
      let (s, found, new) = find-upsert key v db in
      (
        s,
        new,
        ap ok found,
        found,
        law.get-del (get_cache_key key) later redis,
        find-upsert_other key other v db d,
        law.get-del_other (get_cache_key key) (get_cache_key other) later redis
            (λ e. d (key-injective other key e)),
      )

  -- The argument of `RedisService.set` for a value that was fetched.
  abbrev pub stored_value : Option (SettingValue J) → Value
  stored_value none = serialised json.null_text
  stored_value (some (text t)) = raw t
  stored_value (some (structured j)) = serialised (json.stringify j)

  stored_lem :
      (v : Option (SettingValue J)) → value_to_store (stored_value v) ≡ value_to_cache json v
  unfolding value_to_cache
  stored_lem none = refl
  stored_lem (some (text t)) = refl
  stored_lem (some (structured j)) = refl

  -- A reader that has fetched a setting before an update and caches it after the update leaves the old value in
  -- the cache, for an hour at least, although the collection has the new one.
  pub late_fill_serves_old :
      (key : Text) (old new : SettingValue J) (db : Collection J) (redis : C.State)
      (jitter filled later : ℕ)
      → value_of (find_by_key key db) ≡ some (some old)
      → later < filled + cache_ttl_seconds * 1000
      → (value_of (find_by_key key (set_setting_value json C false false key new db redis).0)
          ≡ some (some new))
        × (C.get (get_cache_key key) later (
              set C
                (get_cache_key key)
                (stored_value (some old))
                (some (cache_ttl_seconds + jitter))
                filled
                (set_setting_value json C false false key new db redis).1)
            ≡ some (value_to_cache json (some old)))
  unfolding set_setting_value set
  late_fill_serves_old key old new db redis jitter filled later was soon =
      let (s, found, is_new) = find-upsert key new db in
      let cached =
        law.get-set_ex (get_cache_key key) (value_to_store (stored_value (some old)))
          (cache_ttl_seconds + jitter) filled later (C.del (get_cache_key key) redis)
          (omega arith) in
      let lands : C.get (get_cache_key key) later (
            set_for C (get_cache_key key) (value_to_store (stored_value (some old))) filled
              (some (cache_ttl_seconds + jitter)) (C.del (get_cache_key key) redis))
          ≡ C.get (get_cache_key key) later (
              C.set_ex (get_cache_key key) (value_to_store (stored_value (some old)))
                (cache_ttl_seconds + jitter) filled (C.del (get_cache_key key) redis)) =
        rw (lt→ltb 0 (cache_ttl_seconds + jitter) (omega arith)) refl in
      (ap value_of found ∙ ap some is_new, lands ∙ cached ∙ ap some (stored_lem (some old)))
