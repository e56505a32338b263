-- ===== src/Settings/Writing/Warming.antt =====
-- libs/settings/src/settings.service.ts: what the cache holds after the module has started, and what is then read.
use ocean_chat_private.Prelude.{
  ℕ, suc, ◌+◌, ◌*◌, ◌<◌, ◌≡◌, ◌≢◌, refl, sym, ap, subst, ◌∙◌, List, [], ◌∷◌, Option, none, some,
  true, Result, ok, err, All, arith, same_text, same_text_complete, Bool-cases, inl, inr,
}
use ocean_chat_private.Exceptions.{Exception}
use ocean_chat_private.Redis.Service.{RedisClient, IsRedis, mset, expire}
use ocean_chat_private.Redis.Service.Strings.{get-mset_other, Lacks}
use ocean_chat_private.Settings.{
  Text, Json, IsJson, Got, nothing, raw, value_to_cache, get_setting_value,
}
use ocean_chat_private.Settings.Reading.{IsPlain, cached_setting_returned}
use ocean_chat_private.Settings.Defaults.{Setting}
use ocean_chat_private.Settings.Writing.{
  Collection, Faults, get_cache_key, cache_ttl_seconds, find_by_key, create_defaults, mset_payload,
  expire_all, load_all_settings_to_cache, then_load, on_module_init,
}
use ocean_chat_private.Settings.Writing.Seeding.{
  or_else, Distinct, head_found, find-create_defaults, create_defaults-Distinct,
}

pub key-injective : (a b : Text) → get_cache_key a ≡ get_cache_key b → a ≡ b
key-injective a b e = cc

module _ {J : Type 0} (json : Json J) (C : RedisClient) (law : IsRedis C) where
  Lacks-payload :
      (k : Text) (db : Collection J)
      → All (λ (x : Setting J). k ≢ x.id) db
      → Lacks (get_cache_key k) (mset_payload json C db)
  unfolding mset_payload
  Lacks-payload k [] a = tt
  Lacks-payload k (s ∷ rest) (n, a) = ((λ e. n (key-injective k s.id e)), Lacks-payload k rest a)

  get-loaded :
      (k : Text) (s : Setting J) (db : Collection J) (now : ℕ) (redis : C.State)
      → Distinct db
      → find_by_key k db ≡ some s
      → C.get (get_cache_key k) now (mset C (mset_payload json C db) redis)
        ≡ some (value_to_cache json s.value)
  unfolding find_by_key Distinct mset mset_payload
  get-loaded k s [] now redis u h = cc
  get-loaded k s (x ∷ rest) now redis (a, u) h = elim (Bool-cases (same_text x.id k)) [
    | inl same ↦
        (let (first, named) = head_found k x s rest same h in
          subst
            (λ (y : Text).
              C.get (get_cache_key y) now (mset C (mset_payload json C (x ∷ rest)) redis)
              ≡ some (value_to_cache json s.value))
            named
            (get-mset_other C law (get_cache_key x.id) (mset_payload json C rest) now _
                (Lacks-payload x.id rest a)
              ∙ law.get-set (get_cache_key x.id) (value_to_cache json x.value) now redis
              ∙ ap (λ (y : Setting J). some (value_to_cache json y.value)) first))
    | inr differs ↦ get-loaded k s rest now _ u (ground arith)
  ]

  expire_all-other :
      (faults : Faults) (jitter : ℕ → ℕ) (now n : ℕ) (db : Collection J) (k : Text) (t : ℕ)
      (redis : C.State)
      → All (λ (x : Setting J). k ≢ x.id) db
      → C.get (get_cache_key k) t (expire_all json C faults jitter now n db redis).0
        ≡ C.get (get_cache_key k) t redis
  unfolding expire_all expire
  expire_all-other faults jitter now n [] k t redis a = refl
  expire_all-other faults jitter now n (x ∷ rest) k t redis (m, a) =
      let after = C.expire (get_cache_key x.id) (cache_ttl_seconds + jitter n) now redis in
      let kept =
        law.get-expire_other (get_cache_key x.id) (get_cache_key k) (cache_ttl_seconds + jitter n)
          now t redis (λ e. m (key-injective k x.id e)) in
      ground (
        arith,
        kept,
        expire_all-other faults jitter now (suc n) rest k t redis a,
        expire_all-other faults jitter now (suc n) rest k t after a,
      )

  expire_all-warm :
      (faults : Faults) (jitter : ℕ → ℕ) (now n : ℕ) (db : Collection J) (k : Text) (s : Setting J)
      (v : Text) (later : ℕ) (redis redis' : C.State)
      → Distinct db
      → find_by_key k db ≡ some s
      → C.get (get_cache_key k) now redis ≡ some v
      → later < now + cache_ttl_seconds * 1000
      → expire_all json C faults jitter now n db redis ≡ (redis', ok tt)
      → C.get (get_cache_key k) later redis' ≡ some v
  unfolding expire_all expire find_by_key Distinct
  expire_all-warm faults jitter now n [] k s v later redis redis' u f g l h = cc
  expire_all-warm faults jitter now n (x ∷ rest) k s v later redis redis' (a, u) f g l h =
      let after = C.expire (get_cache_key x.id) (cache_ttl_seconds + jitter n) now redis in
      let went_on : expire_all json C faults jitter now (suc n) rest after ≡ (redis', ok tt) =
        ground arith in
      elim (Bool-cases (same_text x.id k)) [
        | inl same ↦
            (let (first, named) = head_found k x s rest same f in
              let expires =
                law.get-expire (get_cache_key x.id) v (cache_ttl_seconds + jitter n) now later redis
                  (subst (λ (y : Text). C.get (get_cache_key y) now redis ≡ some v) (sym named) g)
                  (omega arith) in
              subst (λ (y : Text). C.get (get_cache_key y) later redis' ≡ some v) named
                (ap
                    (λ (r : C.State × Result Exception (Unit {0})).
                      C.get (get_cache_key x.id) later r.0)
                    (sym went_on)
                  ∙ expire_all-other faults jitter now (suc n) rest x.id later after a
                  ∙ expires))
        | inr differs ↦
            expire_all-warm faults jitter now (suc n) rest k s v later after redis' u (ground arith)
              (law.get-expire_other (get_cache_key x.id) (get_cache_key k)
                  (cache_ttl_seconds + jitter n) now now redis
                  (λ e. same_text_complete x.id k differs (sym (key-injective k x.id e)))
                ∙ g)
              l went_on
      ]

  loaded-warm :
      (faults : Faults) (jitter : ℕ → ℕ) (now : ℕ) (db : Collection J) (k : Text) (s : Setting J)
      (later : ℕ) (redis redis' : C.State)
      → Distinct db
      → find_by_key k db ≡ some s
      → later < now + cache_ttl_seconds * 1000
      → load_all_settings_to_cache json C faults jitter now db redis ≡ (redis', ok tt)
      → C.get (get_cache_key k) later redis' ≡ some (value_to_cache json s.value)
  unfolding load_all_settings_to_cache find_by_key
  loaded-warm faults jitter now [] k s later redis redis' u f l h = cc
  loaded-warm faults jitter now (x ∷ rest) k s later redis redis' u f l h =
      expire_all-warm faults jitter now 0 (x ∷ rest) k s (value_to_cache json s.value) later
        (mset C (mset_payload json C (x ∷ rest)) redis) redis' u f
        (get-loaded k s (x ∷ rest) now redis u f) l (ground arith)

-- What the first attempt of getSettingValue finds where the key is cached.
unfoldable pub first_found : {J : Type 0} → Option Text → Result Exception (Got J)
first_found none = ok nothing
first_found (some t) = ok (raw t)

module _ {J : Type 0} (json : Json J) (C : RedisClient) where
  then_load-ok :
      (faults : Faults) (jitter : ℕ → ℕ) (now : ℕ) (redis redis' : C.State)
      (created : Collection J × Result Exception (Unit {0})) (db' : Collection J)
      → then_load json C faults jitter now redis created ≡ (db', redis', ok tt)
      → (created ≡ (db', ok tt))
        × (load_all_settings_to_cache json C faults jitter now db' redis ≡ (redis', ok tt))
  then_load-ok faults jitter now redis redis' (db, err e) db' h = cc
  then_load-ok faults jitter now redis redis' (db, ok tt) db' h = (ground arith, ground arith)

  -- When the owner of the settings has started without a failure, every setting that was there, and every
  -- default that was not, is in the collection. If nothing writes to Redis after the start, then for an hour
  -- getSettingValue finds the value in the cache at the first attempt and returns it, if it is no text in the
  -- syntax of JSON and has no Date in it.
  pub started_settings_read :
      (defaults : List (Setting J)) (faults : Faults) (jitter : ℕ → ℕ) (now later retries : ℕ)
      (db db' : Collection J) (redis redis' : C.State) (k : Text) (s : Setting J)
      (g : ℕ → Result Exception (Got J))
      → IsRedis C
      → IsJson json
      → Distinct db
      → on_module_init json C true defaults faults jitter now db redis ≡ (db', redis', ok tt)
      → or_else (find_by_key k db) (find_by_key k defaults) ≡ some s
      → later < now + cache_ttl_seconds * 1000
      → 0 < retries
      → g 0 ≡ first_found (C.get (get_cache_key k) later redis')
      → IsPlain json s.value
      → (find_by_key k db' ≡ some s) × (get_setting_value json retries g ≡ ok s.value)
  unfolding on_module_init
  started_settings_read defaults faults jitter now later retries db db' redis redis' k s g law
        parses u h there soon some_retries read plain =
      let (created, loaded) =
        then_load-ok faults jitter now redis redis' (create_defaults json C faults 0 defaults db)
          db' h in
      let found = find-create_defaults json C faults 0 defaults db db' k created ∙ there in
      let distinct =
        subst (λ (r : Collection J × Result Exception (Unit {0})). Distinct r.0) created
          (create_defaults-Distinct json C faults 0 defaults db u) in
      let warm =
        loaded-warm json C law faults jitter now db' k s later redis redis' distinct found soon
          loaded in
      (
        found,
        cached_setting_returned json retries 0 s.value g parses some_retries
            (λ n l. absurd (omega arith)) (read ∙ unfold first_found in ap first_found warm) plain,
      )
