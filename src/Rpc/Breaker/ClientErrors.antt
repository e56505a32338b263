-- ===== src/Rpc/Breaker/ClientErrors.antt =====
-- libs/cores/src/modules/circuit-breaker/circuit-breaker.service.ts: client errors and successes against the
-- breakers.
use ocean_chat_private.Prelude.{
  ℕ, ◌≤◌, ◌<◌, ◌≡◌, ◌≢◌, refl, sym, ap, subst, ◌∙◌, inl, inr, List, [], ◌∷◌, ◌++◌, none, some,
  Result, ok, err, map, All, arith, Bool-cases, Option-cases,
}
use ocean_chat_private.Http.Filter.{Text, infrastructure, Thrown, app}
use ocean_chat_private.Gateway.Guard.{same_text}
use ocean_chat_private.Rpc.Client.{Caught}
use ocean_chat_private.Rpc.Breaker.{
  Options, settles, open_breaker, Opossum, IsOpossum, is_client_error, merged, Breakers, find, put,
  breaker_of, caught, fire,
}
use ocean_chat_private.Rpc.Breaker.Calls.{
  Call, IsClientError-is_client_error, not_client_error, IsHarmlessResult, IsHarmless, IsOutage,
  IsSoonAfter, find-put, find-put_other,
}

module _ (O : Opossum) (law : IsOpossum O) (service_unavailable timed_out_text : Text)
    (limit : ℕ) where
  record Good (b : O.State) : Type 0 where
    pub closed : O.IsClosed b
    pub patient : limit ≤ (O.options_of b).timeout
    pub default_filter : (O.options_of b).error_filter ≡ is_client_error

  AllGood : Breakers O service_unavailable timed_out_text → Type 0
  AllGood breakers = All (λ (p : Text × O.State). Good p.1) breakers

  find-Good :
      (name : Text) (breakers : Breakers O service_unavailable timed_out_text) (b : O.State)
      → AllGood breakers
      → find O service_unavailable timed_out_text name breakers ≡ some b
      → Good b
  unfolding AllGood find
  find-Good name [] b g h = cc
  find-Good name ((n, c) ∷ rest) b (p, g) h = elim (Bool-cases (same_text n name)) [
    | inl same ↦ subst Good (ground arith) p
    | inr other ↦ find-Good name rest b g (ground arith)
  ]

  put-Good :
      (name : Text) (breakers : Breakers O service_unavailable timed_out_text) (b : O.State)
      → AllGood breakers
      → Good b
      → AllGood (put O service_unavailable timed_out_text name b breakers)
  unfolding AllGood put
  put-Good name [] b g new = (new, tt)
  put-Good name ((n, c) ∷ rest) b (p, g) new = elim (Bool-cases (same_text n name)) [
    | inl same ↦ rw same (new, g)
    | inr other ↦ rw other (p, put-Good name rest b g new)
  ]

  create-Good : (A : Type 0) (c : Call A) → IsHarmless limit c → Good (O.create (merged c.options))
  create-Good A c h = record {
    closed = law.create_closed (merged c.options);
    patient =
        subst (λ (o : Options). limit ≤ o.timeout) (sym (law.create_options (merged c.options)))
          h.patient;
    default_filter =
        ap (λ (o : Options). o.error_filter) (law.create_options (merged c.options))
        ∙ h.default_filter;
  }

  breaker_of-Good :
      (A : Type 0) (c : Call A) (breakers : Breakers O service_unavailable timed_out_text)
      → IsHarmless limit c
      → AllGood breakers
      → Good (breaker_of O service_unavailable timed_out_text c.name c.options breakers)
  unfolding breaker_of
  breaker_of-Good A c breakers h g =
      elim (Option-cases (find O service_unavailable timed_out_text c.name breakers)) [
        | inl absent ↦ rw (absent, breaker_of) (create-Good A c h)
        | inr (b, there) ↦ rw (there, breaker_of) (find-Good c.name breakers b g there)
      ]

  fired-IsClosed :
      (A : Type 0) (now t : ℕ) (r : Result (Thrown Caught) A) (b : O.State)
      → Good b
      → t < limit
      → IsHarmlessResult r
      → O.IsClosed (O.fire A now (settles t r) b).0
  unfolding IsHarmlessResult
  fired-IsClosed A now t (ok a) b g l h =
      law.success_keeps_closed A now t a b g.closed (omega (arith, g.patient))
  fired-IsClosed A now t (err e) b g l h =
      law.filtered_keeps_closed A now t e b g.closed (omega (arith, g.patient))
        (ap (λ f. f e) g.default_filter ∙ IsClientError-is_client_error e h)

  fired-Good :
      (A : Type 0) (now t : ℕ) (r : Result (Thrown Caught) A) (b : O.State)
      → Good b
      → t < limit
      → IsHarmlessResult r
      → Good (O.fire A now (settles t r) b).0
  fired-Good A now t r b g l h = record {
    closed = fired-IsClosed A now t r b g l h;
    patient =
        subst (λ (o : Options). limit ≤ o.timeout) (sym (law.fire_options A now (settles t r) b))
          g.patient;
    default_filter =
        ap (λ (o : Options). o.error_filter) (law.fire_options A now (settles t r) b)
        ∙ g.default_filter;
  }

  module _ {A : Type 0} where
    -- A course of calls: the breakers after it, and what each call came to.
    unfoldable pub run :
        List (Call A)
        → Breakers O service_unavailable timed_out_text
        → Breakers O service_unavailable timed_out_text × List (Result (Thrown Caught) A)
    run [] breakers = (breakers, [])
    run (c ∷ calls) breakers =
        let (after, result) =
          fire O service_unavailable timed_out_text c.name c.options c.now
            (settles c.duration c.result) breakers in
        let (last, results) = run calls after in (last, result ∷ results)

    fire_lem :
        (c : Call A) (breakers : Breakers O service_unavailable timed_out_text)
        → IsHarmless limit c
        → AllGood breakers
        → AllGood
            (fire O service_unavailable timed_out_text c.name c.options c.now
              (settles c.duration c.result)
              breakers).0
          × ((fire O service_unavailable timed_out_text c.name c.options c.now
                (settles c.duration c.result)
                breakers).1
              ≡ c.result)
    unfolding fire caught
    fire_lem c breakers h g =
        let good = breaker_of-Good A c breakers h g in
        let b = breaker_of O service_unavailable timed_out_text c.name c.options breakers in
        (
          put-Good c.name breakers _ g
              (fired-Good A c.now c.duration c.result b good h.in_time h.harmless_result),
          ap (caught O service_unavailable timed_out_text) (
              law.closed_passes A c.now c.duration c.result b good.closed
                (omega (arith, h.in_time, good.patient))),
        )

    run_lem :
        (calls : List (Call A)) (breakers : Breakers O service_unavailable timed_out_text)
        → All (IsHarmless limit) calls
        → AllGood breakers
        → (run calls breakers).1 ≡ map (λ (c : Call A). c.result) calls
    unfolding run
    run_lem [] breakers hs g = refl
    run_lem (c ∷ calls) breakers (h, hs) g =
        let (kept, same) = fire_lem c breakers h g in
        let after =
          (fire O service_unavailable timed_out_text c.name c.options c.now
            (settles c.duration c.result) breakers).0 in
        ap (λ r. r ∷ (run calls after).1) same ∙ ap (λ rs. c.result ∷ rs) (run_lem calls _ hs kept)

    run-append :
        (calls more : List (Call A)) (breakers : Breakers O service_unavailable timed_out_text)
        → (run (calls ++ more) breakers).1
          ≡ (run calls breakers).1 ++ (run more (run calls breakers).0).1
    unfolding run
    run-append [] more breakers = refl
    run-append (c ∷ calls) more breakers =
        let (after, result) =
          fire O service_unavailable timed_out_text c.name c.options c.now
            (settles c.duration c.result) breakers in
        ap (λ rs. result ∷ rs) (run-append calls more after)

    -- Calls under other names leave a name without a breaker.
    run-absent :
        (name : Text) (calls : List (Call A))
        (breakers : Breakers O service_unavailable timed_out_text)
        → All (λ (c : Call A). c.name ≢ name) calls
        → find O service_unavailable timed_out_text name breakers ≡ none
        → find O service_unavailable timed_out_text name (run calls breakers).0 ≡ none
    unfolding run fire
    run-absent name [] breakers others absent = absent
    run-absent name (c ∷ calls) breakers (differs, others) absent = run-absent name calls _ others (
        find-put_other O service_unavailable timed_out_text c.name name breakers _ differs ∙ absent)

    -- `fire` with this breaker.
    abbrev fired :
        Call A
        → Breakers O service_unavailable timed_out_text
        → O.State
        → Breakers O service_unavailable timed_out_text × Result (Thrown Caught) A
    fired c breakers b = (
      put O service_unavailable timed_out_text c.name
          (O.fire A c.now (settles c.duration c.result) b).0 breakers,
      caught O service_unavailable timed_out_text
          (O.fire A c.now (settles c.duration c.result) b).1,
    )

    -- The breaker that `fire` finds or makes.
    breaker_of-none :
        (c : Call A) (breakers : Breakers O service_unavailable timed_out_text)
        → find O service_unavailable timed_out_text c.name breakers ≡ none
        → breaker_of O service_unavailable timed_out_text c.name c.options breakers
          ≡ O.create (merged c.options)
    unfolding breaker_of
    breaker_of-none c breakers absent = rw (absent, breaker_of) refl

    breaker_of-some :
        (c : Call A) (b : O.State) (breakers : Breakers O service_unavailable timed_out_text)
        → find O service_unavailable timed_out_text c.name breakers ≡ some b
        → breaker_of O service_unavailable timed_out_text c.name c.options breakers ≡ b
    unfolding breaker_of
    breaker_of-some c b breakers there = rw (there, breaker_of) refl

    fire_new :
        (c : Call A) (breakers : Breakers O service_unavailable timed_out_text)
        → find O service_unavailable timed_out_text c.name breakers ≡ none
        → fire O service_unavailable timed_out_text c.name c.options c.now
            (settles c.duration c.result)
            breakers
          ≡ (
            put O service_unavailable timed_out_text c.name
                (O.fire A c.now (settles c.duration c.result) (O.create (merged c.options))).0
                breakers,
            caught O service_unavailable timed_out_text
                (O.fire A c.now (settles c.duration c.result) (O.create (merged c.options))).1,
          )
    unfolding fire
    fire_new c breakers absent = ap (fired c breakers) (breaker_of-none c breakers absent)

    fire_known :
        (c : Call A) (b : O.State) (breakers : Breakers O service_unavailable timed_out_text)
        → find O service_unavailable timed_out_text c.name breakers ≡ some b
        → (fire O service_unavailable timed_out_text c.name c.options c.now
            (settles c.duration c.result)
            breakers).1
          ≡ caught O service_unavailable timed_out_text
              (O.fire A c.now (settles c.duration c.result) b).1
    unfolding fire
    fire_known c b breakers there =
        ap (λ s. (fired c breakers s).1) (breaker_of-some c b breakers there)

    -- An outage under a new name, and the next call.
    outage_opens :
        (outage later : Call A) (e : Thrown Caught)
        (breakers : Breakers O service_unavailable timed_out_text)
        → find O service_unavailable timed_out_text outage.name breakers ≡ none
        → IsOutage outage e
        → IsSoonAfter outage later
        → (run (outage ∷ later ∷ []) breakers).1
          ≡ err e ∷ err (app infrastructure service_unavailable 50301 503 none) ∷ []
    unfolding run caught
    outage_opens outage later e breakers absent o soon =
        let b =
          (O.fire A outage.now (settles outage.duration outage.result)
            (O.create (merged outage.options))).0 in
        let first = fire_new outage breakers absent in
        let passed =
          law.closed_passes A outage.now outage.duration outage.result
            (O.create (merged outage.options)) (law.create_closed (merged outage.options))
            (subst (λ (m : Options). outage.duration < m.timeout)
              (sym (law.create_options (merged outage.options))) o.in_time) in
        let there =
          ap
            (λ n.
              find O service_unavailable timed_out_text n
                (put O service_unavailable timed_out_text outage.name b breakers))
            soon.same_name
          ∙ find-put O service_unavailable timed_out_text outage.name breakers b in
        let refused =
          fire_known later b (put O service_unavailable timed_out_text outage.name b breakers) there
          ∙ ap (caught O service_unavailable timed_out_text) (
              subst
                (λ r.
                  (O.fire A later.now (settles later.duration later.result)
                    (O.fire A outage.now (settles outage.duration r)
                      (O.create (merged outage.options))).0).1
                  ≡ open_breaker)
                (sym o.throws)
                (law.new_failure_opens A outage.now outage.duration later.now e
                  (settles later.duration later.result) (merged outage.options) o.in_time
                  (ap (λ f. f e) o.default_filter ∙ not_client_error e o.not_client) o.threshold
                  soon.settled soon.not_reset)) in
        ap (λ r. r.1 ∷ (run (later ∷ []) r.0).1) first
        ∙ ap
            (λ r.
              caught O service_unavailable timed_out_text r
              ∷ (run (later ∷ [])
                  (put O service_unavailable timed_out_text outage.name b breakers)).1)
            passed
        ∙ ap
            (λ r.
              r
              ∷ (run (later ∷ [])
                  (put O service_unavailable timed_out_text outage.name b breakers)).1)
            o.throws
        ∙ ap (λ r. err e ∷ r ∷ []) refused

    -- From no breakers on, calls under whatever names that settle before a limit that no timeout is below, with the
    -- default filter, and succeed or throw an error with a status from 400 to 499, each come to what its action
    -- did: no breaker opens. A call under a new name that throws any other error in time, with the default filter
    -- and a threshold below 100 percent, comes to that error, and the next call of that name before the reset
    -- timeout to SERVICE_UNAVAILABLE with 503 and the code 50301, whatever its action does.
    pub client_errors_pass :
        (calls : List (Call A)) (outage later : Call A) (e : Thrown Caught)
        → All (IsHarmless limit) calls
        → All (λ (c : Call A). c.name ≢ outage.name) calls
        → IsOutage outage e
        → IsSoonAfter outage later
        → (run (calls ++ outage ∷ later ∷ []) []).1
          ≡ map (λ (c : Call A). c.result) calls
            ++ err e ∷ err (app infrastructure service_unavailable 50301 503 none) ∷ []
    unfolding AllGood find
    client_errors_pass calls outage later e h others o soon =
        run-append calls (outage ∷ later ∷ []) []
        ∙ ap (λ rs. rs ++ (run (outage ∷ later ∷ []) (run calls []).0).1) (run_lem calls [] h tt)
        ∙ ap (λ rs. map (λ (c : Call A). c.result) calls ++ rs)
            (outage_opens outage later e (run calls []).0
              (run-absent outage.name calls [] others refl) o soon)
