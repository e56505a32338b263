-- ===== src/Settings/Writing/Seeding.antt =====
-- libs/settings/src/settings.service.ts: the settings and the cache after the module has started.
use ocean_chat_private.Prelude.{
  ℕ, suc, ◌≡◌, ◌≢◌, sym, ap, ◌∙◌, [], ◌∷◌, Option, none, some, true, false, Result, ok, All, arith,
  both_branches, same_text, same_text_sound, same_text_refl, same_text_complete, Bool-cases, inl,
  inr,
}
use ocean_chat_private.Exceptions.{Exception}
use ocean_chat_private.Redis.Service.{RedisClient}
use ocean_chat_private.Settings.{Text, Json}
use ocean_chat_private.Settings.Defaults.{Setting}
use ocean_chat_private.Settings.Writing.{
  Collection, Faults, find_by_key, create_if_not_exists, create_defaults,
}

abbrev pub or_else {ℓ} : {A : Type ℓ} → Option A → Option A → Option A
or_else (some a) o = some a
or_else none o = o

module _ {J : Type 0} where
  abbrev pub if_named : Text → Setting J → Option (Setting J)
  if_named k d = elim (same_text d.id k) [ true ↦ some d | false ↦ none ]

  find-create :
      (k : Text) (d : Setting J) (db : Collection J)
      → find_by_key k (create_if_not_exists d db) ≡ or_else (find_by_key k db) (if_named k d)
  unfolding find_by_key create_if_not_exists
  find-create k d [] = ground arith
  find-create k d (s ∷ rest) = ground (
    arith,
    find-create k d rest,
    same_text_sound s.id d.id,
    same_text_sound s.id k,
    same_text_sound d.id k,
    same_text_refl k,
  )

  -- No two settings have the same id.
  unfoldable pub Distinct : Collection J → Type 0
  Distinct [] = Unit
  Distinct (s ∷ rest) = All (λ (x : Setting J). s.id ≢ x.id) rest × Distinct rest

  create-All :
      (id : Text) (d : Setting J) (db : Collection J)
      → All (λ (x : Setting J). id ≢ x.id) db
      → id ≢ d.id
      → All (λ (x : Setting J). id ≢ x.id) (create_if_not_exists d db)
  unfolding create_if_not_exists
  create-All id d [] a n = (n, tt)
  create-All id d (s ∷ rest) (m, a) n = elim (Bool-cases (same_text s.id d.id)) [
    | inl same ↦ rw same (m, a)
    | inr differs ↦ rw differs (m, create-All id d rest a n)
  ]

  create-Distinct :
      (d : Setting J) (db : Collection J) → Distinct db → Distinct (create_if_not_exists d db)
  unfolding create_if_not_exists Distinct
  create-Distinct d [] u = (tt, tt)
  create-Distinct d (s ∷ rest) (a, u) = elim (Bool-cases (same_text s.id d.id)) [
    | inl same ↦ rw same (a, u)
    | inr differs ↦
        rw differs (
          create-All s.id d rest a (same_text_complete s.id d.id differs),
          create-Distinct d rest u,
        )
  ]

  Lacks-find :
      (k : Text) (db : Collection J)
      → find_by_key k db ≡ none
      → All (λ (x : Setting J). k ≢ x.id) db
  unfolding find_by_key
  Lacks-find k [] h = tt
  Lacks-find k (s ∷ rest) h = elim (Bool-cases (same_text s.id k)) [
    | inl same ↦ absurd (ground arith)
    | inr differs ↦
        ((λ e. same_text_complete s.id k differs (sym e)), Lacks-find k rest (ground arith))
  ]

pub head_found :
    {J : Type 0} (k : Text) (x s : Setting J) (rest : Collection J)
    → same_text x.id k ≡ true
    → find_by_key k (x ∷ rest) ≡ some s
    → (x ≡ s) × (x.id ≡ k)
unfolding find_by_key
head_found k x s rest same h = (ground arith, same_text_sound x.id k same)

module _ {J : Type 0} (json : Json J) (C : RedisClient) where
  -- Without failures the loop leaves what was there and adds the defaults that were not.
  pub find-create_defaults :
      (faults : Faults) (n : ℕ) (defaults db db' : Collection J) (k : Text)
      → create_defaults json C faults n defaults db ≡ (db', ok tt)
      → find_by_key k db' ≡ or_else (find_by_key k db) (find_by_key k defaults)
  unfolding create_defaults find_by_key
  find-create_defaults faults n [] db db' k h = ground arith
  find-create_defaults faults n (d ∷ ds) db db' k h =
      let rest =
        find-create_defaults faults (suc n) ds (create_if_not_exists d db) db' k (ground arith) in
      rest ∙ ap (λ o. or_else o (find_by_key k ds)) (find-create k d db) ∙ ground arith

  -- Whatever fails, a setting that was there is there as it was.
  pub create_defaults-keeps :
      (faults : Faults) (n : ℕ) (defaults db : Collection J) (k : Text) (s : Setting J)
      → find_by_key k db ≡ some s
      → find_by_key k (create_defaults json C faults n defaults db).0 ≡ some s
  unfolding create_defaults
  create_defaults-keeps faults n [] db k s h = h
  create_defaults-keeps faults n (d ∷ ds) db k s h =
      let kept = find-create k d db ∙ ap (λ o. or_else o (if_named k d)) h in
      let rest = create_defaults-keeps faults (suc n) ds (create_if_not_exists d db) k s kept in
      ground (arith, rest)

  pub create_defaults-Distinct :
      (faults : Faults) (n : ℕ) (defaults db : Collection J)
      → Distinct db
      → Distinct (create_defaults json C faults n defaults db).0
  unfolding create_defaults
  create_defaults-Distinct faults n [] db u = u
  create_defaults-Distinct faults n (d ∷ ds) db u =
      both_branches (λ (r : Collection J × Result Exception (Unit {0})). Distinct r.0)
        (faults.create n) (λ e. u)
        (λ e.
          create_defaults-Distinct faults (suc n) ds (create_if_not_exists d db)
            (create-Distinct d db u))
