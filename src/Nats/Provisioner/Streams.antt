-- ===== src/Nats/Provisioner/Streams.antt =====
-- libs/nats-jetstream-provisioner/src/nats-jetstream-provisioner.service.ts: the streams of the server after a
-- service has started.
use ocean_chat_private.Prelude.{
  ℕ, suc, ◌≡◌, ◌≢◌, refl, sym, ap, ◌∙◌, subst, List, [], ◌∷◌, Option, none, some, true, false,
  Result, ok, err, arith, if◌then◌else◌, Bool-cases, Option-cases, inl, inr, same_text,
  same_text_sound, same_text_complete, All, ◌⊎◌,
}
use ocean_chat_private.Exceptions.{Exception}
use ocean_chat_private.Nats.Provisioner.{
  Text, Config, StreamConfig, JetStream, IsJetStream, Faults, or_else, option_of, normal_option,
  stream_name, provisioning_failed, stream_info, ensure_stream, and_then, ensure_all, or_fail,
  ensure_streams,
}

or_else_assoc : {A : Type 0} (a b c : Option A) → or_else (or_else a b) c ≡ or_else a (or_else b c)
or_else_assoc (some x) b c = refl
or_else_assoc none b c = refl

module _ {V : Type 0} (S : JetStream V) where
  -- What one configuration gives for an option of a stream, as the server writes it.
  abbrev pub given : ℕ → Text → StreamConfig V → Option V
  given k name c = elim (stream_name c.name) [
    | none ↦ none
    | some n ↦ elim (same_text n name) [
      | true ↦ normal_option S.normal k (c.config k)
      | false ↦ none
    ]
  ]

  -- The value that the last configuration of a name that gives the option has for it.
  unfoldable pub wanted : ℕ → Text → List (StreamConfig V) → Option V
  wanted k name [] = none
  wanted k name (c ∷ configs) = or_else (wanted k name configs) (given k name c)

module _ {V : Type 0} (S : JetStream V) (law : IsJetStream S) where
  Written : Text → Config V → S.State → S.State → Type 0
  Written m c s t =
      ((S.info m s ≢ none) × (t ≡ S.update m c s)) ⊎ ((S.info m s ≡ none) × (t ≡ S.add m c s))

  some-ne-none : {A : Type 0} (o : Option A) (a : A) → o ≡ some a → o ≢ none
  some-ne-none o a e h = cc

  ensure_stream-ok :
      (faults : Faults) (n : ℕ) (c : StreamConfig V) (s t : S.State)
      → faults.info n ≡ false
      → ensure_stream S faults n c s ≡ (t, ok tt)
      → (m : Text) × (stream_name c.name ≡ some m) × Written m c.config s t
  unfolding ensure_stream Written
  ensure_stream-ok faults n c s t known h = elim (Option-cases (stream_name c.name)) [
    | inl missing ↦ absurd (ground arith)
    | inr (m, named) ↦ elim (Option-cases (stream_info S (faults.info n) m s)) [
      | inl absent ↦ (m, named, inr (ground arith, ground arith))
      | inr (old, there) ↦
          (m, named, inl (some-ne-none (S.info m s) old (ground arith), ground arith))
    ]
  ]

  -- A stream is written: it is there, its given options are as given, and where it was there before, the
  -- others are as they were.
  Written-there : (m : Text) (c : Config V) (s t : S.State) → Written m c s t → S.info m t ≢ none
  unfolding Written
  Written-there m c s t (inl (there, e)) h =
      law.update_there m c s there (ap (S.info m) (sym e) ∙ h)
  Written-there m c s t (inr (absent, e)) h = law.add_there m c s absent (ap (S.info m) (sym e) ∙ h)

  Written-kept :
      (m : Text) (c : Config V) (s t : S.State) (k : ℕ)
      → Written m c s t
      → S.info m s ≢ none
      → option_of k (S.info m t)
        ≡ or_else (normal_option S.normal k (c k)) (option_of k (S.info m s))
  unfolding Written
  Written-kept m c s t k (inl (there, e)) known =
      ap (λ u. option_of k (S.info m u)) e ∙ law.info-update m c s k there
  Written-kept m c s t k (inr (absent, e)) known = absurd (known absent)

  Written-given :
      (m : Text) (c : Config V) (s t : S.State) (k : ℕ) (v : V)
      → Written m c s t
      → c k ≡ some v
      → option_of k (S.info m t) ≡ some (S.normal k v)
  unfolding Written
  Written-given m c s t k v (inl (there, e)) h =
      ap (λ u. option_of k (S.info m u)) e
      ∙ law.info-update m c s k there
      ∙ ap (λ o. or_else (normal_option S.normal k o) (option_of k (S.info m s))) h
  Written-given m c s t k v (inr (absent, e)) h =
      ap (λ u. option_of k (S.info m u)) e ∙ law.info-add m c s k v absent h

  Written-other :
      (m : Text) (c : Config V) (s t : S.State) (name : Text)
      → Written m c s t
      → name ≢ m
      → S.info name t ≡ S.info name s
  unfolding Written
  Written-other m c s t name (inl (there, e)) d =
      ap (S.info name) e ∙ law.info-update_other m name c s d
  Written-other m c s t name (inr (absent, e)) d =
      ap (S.info name) e ∙ law.info-add_other m name c s d

  -- The stream was there, or a configuration gives the option.
  abbrev pub IsKnown : ℕ → Text → List (StreamConfig V) → S.State → Type 0
  IsKnown k name configs s = (S.info name s ≢ none) ⊎ (wanted S k name configs ≢ none)

  given-named :
      (k : ℕ) (name m : Text) (c : StreamConfig V)
      → stream_name c.name ≡ some m
      → given S k name c
        ≡ elim (same_text m name) [ true ↦ normal_option S.normal k (c.config k) | false ↦ none ]
  given-named k name m c named =
      ap
        (λ (o : Option Text). elim o [
          | none ↦ none
          | some n ↦ elim (same_text n name) [
            | true ↦ normal_option S.normal k (c.config k)
            | false ↦ none
          ]
        ])
        named

  -- The configuration of the stream itself, and what the later ones make of it.
  same_stream :
      (c : StreamConfig V) (s u : S.State) (name : Text) (k : ℕ) (later : Option V)
      → Written name c.config s u
      → (S.info name s ≢ none) ⊎ (or_else later (normal_option S.normal k (c.config k)) ≢ none)
      → or_else later (option_of k (S.info name u))
        ≡ or_else
            (or_else later (normal_option S.normal k (c.config k)))
            (option_of k (S.info name s))
  same_stream c s u name k (some v) w known = refl
  same_stream c s u name k none w (inl there) = Written-kept name c.config s u k w there
  same_stream c s u name k none w (inr gives) = elim (Option-cases (c.config k)) [
    | inl missing ↦ absurd (gives (ap (normal_option S.normal k) missing))
    | inr (v, set) ↦
        Written-given name c.config s u k v w set
        ∙ sym (ap (λ o. or_else (normal_option S.normal k o) (option_of k (S.info name s))) set)
  ]

  ensure_all_lem :
      (faults : Faults) (n : ℕ) (configs : List (StreamConfig V)) (s t : S.State) (name : Text)
      (k : ℕ)
      → ((i : ℕ) → faults.info i ≡ false)
      → ensure_all S faults n configs s ≡ (t, ok tt)
      → IsKnown k name configs s
      → option_of k (S.info name t)
        ≡ or_else (wanted S k name configs) (option_of k (S.info name s))
  unfolding ensure_all wanted
  ensure_all_lem faults n [] s t name k answers h known =
      ap (λ (r : S.State × Result Exception (Unit {0})). option_of k (S.info name r.0)) (sym h)
  ensure_all_lem faults n (c ∷ configs) s t name k answers h known =
      let (u, now, later) = split (ensure_stream S faults n c s) refl in
      let (m, named, w) = ensure_stream-ok faults n c s u (answers n) now in
      let gives = given-named k name m c named in
      elim (Bool-cases (same_text m name)) [
        | inl same ↦
            (let w' = subst (λ x. Written x c.config s u) (same_text_sound m name same) w in
              let gives' = gives ∙ rw same refl in
              ensure_all_lem faults (suc n) configs u t name k answers later
                (inl (Written-there name c.config s u w'))
              ∙ same_stream c s u name k (wanted S k name configs) w' (
                  subst (λ o. (S.info name s ≢ none) ⊎ (or_else (wanted S k name configs) o ≢ none))
                    gives' known)
              ∙ ap
                  (λ o. or_else (or_else (wanted S k name configs) o) (option_of k (S.info name s)))
                  (sym gives'))
        | inr differs ↦
            (let kept =
                Written-other m c.config s u name w
                  (λ e. same_text_complete m name differs (sym e)) in
              let gives' : given S k name c ≡ none = gives ∙ rw differs refl in
              let same_wanted =
                ap (or_else (wanted S k name configs)) gives' ∙ no_more (wanted S k name configs) in
              ensure_all_lem faults (suc n) configs u t name k answers later (
                subst (λ o. (o ≢ none) ⊎ (wanted S k name configs ≢ none)) (sym kept)
                  (subst (λ o. (S.info name s ≢ none) ⊎ (o ≢ none)) same_wanted known))
              ∙ ap (λ o. or_else (wanted S k name configs) (option_of k o)) kept
              ∙ ap (λ o. or_else o (option_of k (S.info name s))) (sym same_wanted))
      ]
    where
      no_more : (o : Option V) → or_else o none ≡ o
      no_more none = refl
      no_more (some v) = refl

      split :
          (r : S.State × Result Exception (Unit {0}))
          → ensure_stream S faults n c s ≡ r
          → (u : S.State) × (ensure_stream S faults n c s ≡ (u, ok tt))
            × (ensure_all S faults (suc n) configs u ≡ (t, ok tt))
      split (u, ok tt) e =
          (u, e, ap (λ r. and_then S r (λ x. ensure_all S faults (suc n) configs x)) (sym e) ∙ h)
      split (u, err x) e =
          absurd (
            failed
              (ap (λ r. and_then S r (λ y. ensure_all S faults (suc n) configs y)) (sym e) ∙ h))
        where
          failed : ◌≡◌ {A = S.State × Result Exception (Unit {0})} (u, err x) (t, ok tt) → ⊥
          failed e = cc

  -- What `ensure_streams` leaves where it succeeds.
  ensure_streams-ok :
      (faults : Faults) (configs : List (StreamConfig V)) (s : S.State)
      → faults.connect ≡ false
      → (ensure_streams S faults configs s).1 ≡ ok tt
      → ensure_all S faults 0 configs s ≡ ((ensure_streams S faults configs s).0, ok tt)
  unfolding ensure_streams ensure_all
  ensure_streams-ok faults [] s up h = refl
  ensure_streams-ok faults (c ∷ configs) s up h =
      let connected : ensure_streams S faults (c ∷ configs) s
          ≡ or_fail S (ensure_all S faults 0 (c ∷ configs) s) =
        ground arith in
      passed (ensure_all S faults 0 (c ∷ configs) s) (ap (λ r. r.1) (sym connected) ∙ h)
      ∙ ap (λ (r : S.State × Result Exception (Unit {0})). (r.0, ok tt)) (sym connected)
    where
      passed :
          (r : S.State × Result Exception (Unit {0}))
          → (or_fail S r).1 ≡ ok tt
          → r ≡ ((or_fail S r).0, ok tt)
      passed (u, ok tt) g = refl
      passed (u, err e) g = cc

  -- No call fails.
  unfoldable pub NoFaults : Faults → Type 0
  NoFaults f =
      (f.connect ≡ false)
      × ((n : ℕ) → f.info n ≡ false)
      × ((n : ℕ) → f.update n ≡ false)
      × ((n : ℕ) → f.add n ≡ false)

  unfoldable pub IsNamed : StreamConfig V → Type 0
  IsNamed c = (m : Text) × (stream_name c.name ≡ some m)

  ensure_stream-succeeds :
      (faults : Faults) (n : ℕ) (c : StreamConfig V) (s : S.State)
      → NoFaults faults
      → IsNamed c
      → (t : S.State) × (ensure_stream S faults n c s ≡ (t, ok tt))
  unfolding ensure_stream NoFaults IsNamed
  ensure_stream-succeeds faults n c s (u, known, up, ad) (m, named) =
      elim (Option-cases (stream_info S (faults.info n) m s)) [
        | inl absent ↦ (S.add m c.config s, ground (arith, ad n))
        | inr (old, there) ↦ (S.update m c.config s, ground (arith, up n))
      ]

  ensure_all-succeeds :
      (faults : Faults) (n : ℕ) (configs : List (StreamConfig V)) (s : S.State)
      → NoFaults faults
      → All IsNamed configs
      → (ensure_all S faults n configs s).1 ≡ ok tt
  unfolding ensure_all
  ensure_all-succeeds faults n [] s f a = refl
  ensure_all-succeeds faults n (c ∷ configs) s f (m, a) =
      let (t, done) = ensure_stream-succeeds faults n c s f m in
      ap (λ r. (and_then S r (λ x. ensure_all S faults (suc n) configs x)).1) done
      ∙ ensure_all-succeeds faults (suc n) configs t f a

  or_fail-ok : (r : S.State × Result Exception (Unit {0})) → r.1 ≡ ok tt → (or_fail S r).1 ≡ ok tt
  or_fail-ok (s, ok tt) h = refl
  or_fail-ok (s, err e) h = cc

  ensure_streams-succeeds :
      (faults : Faults) (configs : List (StreamConfig V)) (s : S.State)
      → NoFaults faults
      → All IsNamed configs
      → (ensure_streams S faults configs s).1 ≡ ok tt
  unfolding ensure_streams NoFaults
  ensure_streams-succeeds faults [] s f a = refl
  ensure_streams-succeeds faults (c ∷ configs) s (up, known, u, ad) a =
      ap
        (λ b.
          (if b
            then (s, err provisioning_failed)
            else or_fail S (ensure_all S faults 0 (c ∷ configs) s)).1)
        up
      ∙ or_fail-ok (ensure_all S faults 0 (c ∷ configs) s)
          (ensure_all-succeeds faults 0 (c ∷ configs) s (up, known, u, ad) a)

  -- A start in which every configuration has a name and no call fails succeeds. Each option of a stream then has the
  -- value, as the server writes it, of the last configuration of that stream that gives the option, or else the one
  -- from before the start; where the stream was not there, this is said of the options that are given.
  pub streams_provisioned :
      (faults : Faults) (configs : List (StreamConfig V)) (s : S.State) (name : Text) (k : ℕ)
      → NoFaults faults
      → All IsNamed configs
      → IsKnown k name configs s
      → ((ensure_streams S faults configs s).1 ≡ ok tt)
        × (option_of k (S.info name (ensure_streams S faults configs s).0)
            ≡ or_else (wanted S k name configs) (option_of k (S.info name s)))
  unfolding NoFaults
  streams_provisioned faults configs s name k (up, answers, u, ad) a known =
      let good = ensure_streams-succeeds faults configs s (up, answers, u, ad) a in
      (
        good,
        ensure_all_lem faults 0 configs s _ name k answers
            (ensure_streams-ok faults configs s up good) known,
      )
