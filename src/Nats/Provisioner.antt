-- ===== src/Nats/Provisioner.antt =====
-- libs/nats-jetstream-provisioner/src/nats-jetstream-provisioner.service.ts: the streams that a service
-- provisions when it starts. The server is a parameter with what JetStream documents as laws; which of its
-- calls fail is an argument. `V` are the values of options.
pub mod Streams
mod Tests
use ocean_chat_private.Prelude.{
  ℕ, zero, suc, List, [], ◌∷◌, Option, none, some, Bool, true, false, Result, ok, err, ◌>>=◌, ◌≡◌,
  ◌≢◌, if◌then◌else◌,
}
use ocean_chat_private.Exceptions.{Exception, infrastructure, other, service_error}

abbrev pub Text : Type 0
Text = List ℕ

-- The options of a stream apart from its name, by their numbers; `none` is an option that is not given.
abbrev pub Config : Type 0 → Type 0
Config V = ℕ → Option V

-- A configuration whose name may be missing.
pub record StreamConfig (V : Type 0) : Type 0 where
  pub name : Option Text
  pub config : Config V

-- `streams.info`, `streams.update` and `streams.add` of a server that answers, and how it writes the value that is
-- given for an option, such as -1 for a limit of 0.
pub record JetStream (V : Type 0) : Type 1 where
  pub State : Type 0
  pub info : Text → State → Option (Config V)
  pub update : Text → Config V → State → State
  pub add : Text → Config V → State → State
  pub normal : ℕ → V → V

abbrev pub or_else {ℓ} : {A : Type ℓ} → Option A → Option A → Option A
or_else (some a) o = some a
or_else none o = o

-- An option of a stream that may not be there.
abbrev pub option_of : {V : Type 0} → ℕ → Option (Config V) → Option V
option_of k none = none
option_of k (some c) = c k

abbrev pub normal_option : {V : Type 0} → (ℕ → V → V) → ℕ → Option V → Option V
normal_option normal k none = none
normal_option normal k (some v) = some (normal k v)

-- An update puts the given options over those that the stream has, and keeps the others. A stream that is added has
-- the given options; the server chooses the others. The other streams are as they were.
pub record IsJetStream {V : Type 0} (S : JetStream V) : Type 1 where
  pub info-update :
      (n : Text) (c : Config V) (s : S.State) (k : ℕ)
      → S.info n s ≢ none
      → option_of k (S.info n (S.update n c s))
        ≡ or_else (normal_option S.normal k (c k)) (option_of k (S.info n s))
  pub update_there :
      (n : Text) (c : Config V) (s : S.State) → S.info n s ≢ none → S.info n (S.update n c s) ≢ none
  pub info-update_other :
      (n m : Text) (c : Config V) (s : S.State) → m ≢ n → S.info m (S.update n c s) ≡ S.info m s
  pub info-add :
      (n : Text) (c : Config V) (s : S.State) (k : ℕ) (v : V)
      → S.info n s ≡ none
      → c k ≡ some v
      → option_of k (S.info n (S.add n c s)) ≡ some (S.normal k v)
  pub add_there :
      (n : Text) (c : Config V) (s : S.State) → S.info n s ≡ none → S.info n (S.add n c s) ≢ none
  pub info-add_other :
      (n m : Text) (c : Config V) (s : S.State) → m ≢ n → S.info m (S.add n c s) ≡ S.info m s

-- Which calls fail: `connect` or the manager, and for the n-th configuration `info`, `update` and `add`.
pub record Faults : Type 0 where
  pub connect : Bool
  pub info : ℕ → Bool
  pub update : ℕ → Bool
  pub add : ℕ → Bool

-- `if (!streamName)`: a name that is missing or empty.
abbrev pub stream_name : Option Text → Option Text
stream_name none = none
stream_name (some []) = none
stream_name (some (c ∷ cs)) = some (c ∷ cs)

abbrev pub provisioning_failed : Exception
provisioning_failed = infrastructure service_error 500

module _ {V : Type 0} (S : JetStream V) where
  -- A failure of `info` is taken for a stream that is not there.
  abbrev pub stream_info : Bool → Text → S.State → Option (Config V)
  stream_info fails name s = if fails then none else S.info name s

  abbrev pub change : Bool → S.State → S.State → S.State × Result Exception (Unit {0})
  change fails before after = if fails then (before, err other) else (after, ok tt)

  -- The body of the loop for the n-th configuration.
  unfoldable pub ensure_stream :
      Faults → ℕ → StreamConfig V → S.State → S.State × Result Exception (Unit {0})
  ensure_stream faults n c s = elim (stream_name c.name) [
    | none ↦ (s, err provisioning_failed)
    | some name ↦ elim (stream_info (faults.info n) name s) [
      | some old ↦ change (faults.update n) s (S.update name c.config s)
      | none ↦ change (faults.add n) s (S.add name c.config s)
    ]
  ]

  abbrev pub and_then :
      S.State × Result Exception (Unit {0})
      → (S.State → S.State × Result Exception (Unit {0}))
      → S.State × Result Exception (Unit {0})
  and_then (s, ok u) rest = rest s
  and_then (s, err e) rest = (s, err e)

  unfoldable pub ensure_all :
      Faults → ℕ → List (StreamConfig V) → S.State → S.State × Result Exception (Unit {0})
  unfolding ensure_stream
  ensure_all faults n [] s = (s, ok tt)
  ensure_all faults n (c ∷ configs) s =
      and_then (ensure_stream faults n c s) (λ t. ensure_all faults (suc n) configs t)

  -- The `catch` wraps every error.
  abbrev pub or_fail : S.State × Result Exception (Unit {0}) → S.State × Result Exception (Unit {0})
  or_fail (s, ok u) = (s, ok u)
  or_fail (s, err e) = (s, err provisioning_failed)

  -- `ensureStreams`; without configurations it does not even connect.
  unfoldable pub ensure_streams :
      Faults → List (StreamConfig V) → S.State → S.State × Result Exception (Unit {0})
  unfolding ensure_all
  ensure_streams faults [] s = (s, ok tt)
  ensure_streams faults (c ∷ configs) s =
      if faults.connect
      then (s, err provisioning_failed)
      else or_fail (ensure_all faults 0 (c ∷ configs) s)
