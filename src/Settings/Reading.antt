-- ===== src/Settings/Reading.antt =====
-- libs/settings/src/settings.service.ts: what is read of a setting that was stored.
use ocean_chat_private.Prelude.{
  ℕ, zero, suc, ◌+◌, ◌<◌, ◌≡◌, ◌⊎◌, ap, ◌∙◌, Option, none, some, false, Result, ok, ◌>>=◌, arith,
}
use ocean_chat_private.Exceptions.{Exception}
use ocean_chat_private.Settings.{
  Text, SettingValue, text, structured, Got, nothing, raw, fetched, Json, IsJson, value_to_cache,
  answer_of, parsed_or, or_retry, attempts, get_setting_value,
}

plus_zero : (i : ℕ) → i ≡ i + 0
plus_zero i = omega arith

zero_plus : (n : ℕ) → 0 + n ≡ n
zero_plus n = omega arith

plus_suc : (i n : ℕ) → suc i + n ≡ i + suc n
plus_suc i n = omega arith

module _ {J : Type 0} (json : Json J) where
  -- The value is no text that is JSON, and has no Date in it.
  unfoldable pub IsPlain : Option (SettingValue J) → Type 0
  IsPlain none = Unit
  IsPlain (some (structured j)) = json.has_date j ≡ false
  IsPlain (some (text t)) = json.parse t ≡ none

  answer_of-cached :
      IsJson json
      → (v : Option (SettingValue J)) → IsPlain v
      → answer_of json (raw (value_to_cache json v)) ≡ some v
  unfolding answer_of value_to_cache IsPlain
  answer_of-cached law none p = ap (λ o. some (parsed_or json json.null_text o)) law.parse_null
  answer_of-cached law (some (structured j)) p =
      ap (λ o. some (parsed_or json (json.stringify j) o)) (law.parse-stringify j p)
  answer_of-cached law (some (text t)) p = ap (λ o. some (parsed_or json t o)) p

  first_answer :
      (g : ℕ → Result Exception (Got J)) (k left i : ℕ) (got : Got J) (v : Option (SettingValue J))
      → k < left
      → ((n : ℕ) → n < k → g (i + n) ≡ ok nothing)
      → g (i + k) ≡ ok got
      → answer_of json got ≡ some v
      → attempts json g left i ≡ ok v
  unfolding attempts answer_of
  first_answer g k zero i got v l h q a = absurd (omega arith)
  first_answer g zero (suc left) i got v l h q a =
      let now = ap g (plus_zero i) ∙ q in
      ap (λ r. r >>= λ x. or_retry json (answer_of json x) (attempts json g left (suc i))) now
      ∙ ap (λ o. or_retry json o (attempts json g left (suc i))) a
  first_answer g (suc k) (suc left) i got v l h q a =
      let now = ap g (plus_zero i) ∙ h 0 (omega arith) in
      ap (λ r. r >>= λ x. or_retry json (answer_of json x) (attempts json g left (suc i))) now
      ∙ first_answer g k left (suc i) got v (omega arith)
          (λ n m. ap g (plus_suc i n) ∙ h (suc n) (omega arith)) (ap g (plus_suc i k) ∙ q) a

  -- A cached value that is no text in the syntax of JSON and has no Date in it is what getSettingValue returns, if it is found
  -- at an attempt that is still made after only empty ones.
  pub cached_setting_returned :
      (retries k : ℕ) (v : Option (SettingValue J)) (g : ℕ → Result Exception (Got J))
      → IsJson json
      → k < retries
      → ((n : ℕ) → n < k → g n ≡ ok nothing)
      → g k ≡ ok (raw (value_to_cache json v))
      → IsPlain v
      → get_setting_value json retries g ≡ ok v
  unfolding get_setting_value
  cached_setting_returned retries k v g law l h q p =
      first_answer g k retries 0 (raw (value_to_cache json v)) v l
        (λ n m. ap g (zero_plus n) ∙ h n m) (ap g (zero_plus k) ∙ q) (answer_of-cached law v p)

  -- A text that is JSON, such as the text true, is read as the value that it stands for, whether
  -- the first attempt finds it in the cache or fetches it.
  pub json_text_changes_type :
      (retries : ℕ) (t : Text) (w : Option (SettingValue J)) (g : ℕ → Result Exception (Got J))
      → 0 < retries
      → json.parse t ≡ some w
      → (g 0 ≡ ok (fetched (text t))) ⊎ (g 0 ≡ ok (raw (value_to_cache json (some (text t)))))
      → get_setting_value json retries g ≡ ok w
  unfolding get_setting_value attempts answer_of value_to_cache
  json_text_changes_type zero t w g l p h = absurd (omega arith)
  json_text_changes_type (suc retries) t w g l p h = ground arith
