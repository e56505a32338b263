-- ===== src/Gateway/Guard/Decisions.antt =====
-- apps/oceanchat-api-gateway/src/common/guards/jwt-auth.guard.ts: all outcomes of the guard, and what
-- becomes of a revoked token on the pods.
use ocean_chat_private.Prelude.{
  ℕ, ◌+◌, ◌/◌, ◌*◌, ◌<◌, ◌≡◌, ◌≢◌, refl, sym, ap, subst, ◌⊎◌, List, [], ◌∷◌, ◌++◌, Option, none,
  some, Bool, false, Bool-cases, ◌∙◌, inl, inr, same_text_sound, Result, ok, err, ◌==◌, arith, All,
}
use ocean_chat_private.Exceptions.{Exception, domain, unauthorized, error_code_token_expired}
use ocean_chat_private.Store.{Store}
use ocean_chat_private.Gateway.Revocation.{
  TokenRevokedEvent, Faults, idempotency_ttl, is_revoked, on_event, Handled,
}
use ocean_chat_private.Gateway.Revocation.Laws.{
  NoFaults, Revoked, Agrees, Handled-Revoked, second_pod_ignores,
}
use ocean_chat_private.Gateway.Guard.{
  JwtPayload, User, Verified, valid, expired, invalid, split, same_text, space, bearer, token_of,
  extract_token_from_header, user_of, refused, after_verify, with_token, can_activate,
}

split-no_separator :
    (separator : ℕ) (t : List ℕ)
    → All (λ c. (c == separator) ≡ false) t
    → split separator t ≡ t ∷ []
unfolding split
split-no_separator separator [] a = refl
split-no_separator separator (c ∷ cs) (n, a) = ground (arith, split-no_separator separator cs a)

-- A token without a space is found behind 'Bearer ', also an empty one.
pub extract-bearer :
    (t : List ℕ)
    → All (λ c. (c == space) ≡ false) t
    → extract_token_from_header (some (bearer ++ space ∷ t)) ≡ some t
unfolding extract_token_from_header token_of split same_text
extract-bearer t a = ap (λ r. token_of (bearer ∷ r)) (split-no_separator space t a)

-- The pieces with the separator before each of them.
behind : ℕ → List (List ℕ) → List ℕ
behind separator [] = []
behind separator (piece ∷ pieces) = separator ∷ (piece ++ behind separator pieces)

-- A text is its first piece, which has no separator, and the others behind their separators.
split-pieces :
    (separator : ℕ) (t : List ℕ)
    → (piece : List ℕ) × (pieces : List (List ℕ)) × (split separator t ≡ piece ∷ pieces)
      × (t ≡ piece ++ behind separator pieces)
      × All (λ c. (c == separator) ≡ false) piece
      × All (λ q. All (λ c. (c == separator) ≡ false) q) pieces
unfolding split behind
split-pieces separator [] = ([], [], refl, refl, tt, tt)
split-pieces separator (c ∷ cs) =
    let (piece, pieces, cut, same, free, others) = split-pieces separator cs in
    elim (Bool-cases (c == separator)) [
      | inl found ↦ (
        [],
        piece ∷ pieces,
        ground (arith, found, cut),
        ap (λ t. c ∷ t) same
            ∙ ap (λ k. k ∷ (piece ++ behind separator pieces)) (ground (arith, found)),
        tt,
        (free, others),
      )
      | inr other ↦ (
        c ∷ piece,
        pieces,
        ground (arith, other, cut),
        ap (λ t. c ∷ t) same,
        (other, free),
        others,
      )
    ]

-- The header is 'Bearer', one space, this token without a space, and the end of the header or another space.
unfoldable pub IsBearer : Option (List ℕ) → List ℕ → Type 0
IsBearer authorization token =
    (rest : List ℕ) × ((rest ≡ []) ⊎ ((r : List ℕ) × (rest ≡ space ∷ r)))
    × (authorization ≡ some (bearer ++ space ∷ (token ++ rest)))
    × All (λ c. (c == space) ≡ false) token

behind-ends :
    (pieces : List (List ℕ))
    → (behind space pieces ≡ []) ⊎ ((r : List ℕ) × (behind space pieces ≡ space ∷ r))
unfolding behind
behind-ends [] = inl refl
behind-ends (piece ∷ pieces) = inr (piece ++ behind space pieces, refl)

extract-IsBearer :
    (authorization : Option (List ℕ)) (token : List ℕ)
    → extract_token_from_header authorization ≡ some token
    → IsBearer authorization token
unfolding extract_token_from_header token_of behind IsBearer
extract-IsBearer none token h = cc
extract-IsBearer (some t) token h =
    let (type, pieces, cut, same, free, others) = split-pieces space t in
    typed type pieces cut same others (sym (ap token_of cut) ∙ h)
  where
    typed :
        (type : List ℕ) (pieces : List (List ℕ))
        → split space t ≡ type ∷ pieces
        → t ≡ type ++ behind space pieces
        → All (λ q. All (λ c. (c == space) ≡ false) q) pieces
        → token_of (type ∷ pieces) ≡ some token
        → IsBearer (some t) token
    typed type [] cut same others h = cc
    typed type (found ∷ pieces) cut same (free, others) h =
        elim (Bool-cases (same_text type bearer)) [
          | inl is_bearer ↦
              let is_token : found ≡ token = ground (arith, is_bearer) in
              (
                behind space pieces,
                behind-ends pieces,
                ap some (
                    same
                    ∙ ap (λ q. q ++ space ∷ (found ++ behind space pieces))
                        (same_text_sound type bearer is_bearer)
                    ∙ ap (λ q. bearer ++ space ∷ (q ++ behind space pieces)) is_token),
                subst (All (λ c. (c == space) ≡ false)) is_token free,
              )
          | inr other ↦ absurd (ground (arith, other))
        ]

module _ (C : Store ℕ Bool) (verify : List ℕ → ℕ → Verified) where
  -- A request with a user passed the guard with this payload.
  unfoldable pub Accepted : Option (List ℕ) → ℕ → C.State → User → Type 0
  Accepted authorization now cache user =
      (token : List ℕ) × (p : JwtPayload) × IsBearer authorization token
      × (token ≢ [])
      × (verify token now ≡ valid p)
      × (is_revoked C p.jti now cache ≡ false)
      × (user ≡ user_of p)

  after_verify-eq-ok :
      (now : ℕ) (cache : C.State) (v : Verified) (user : User)
      → after_verify C verify now cache v ≡ ok user
      → (p : JwtPayload) × (v ≡ valid p)
        × (is_revoked C p.jti now cache ≡ false)
        × (user ≡ user_of p)
  unfolding after_verify
  after_verify-eq-ok now cache (valid p) user h = (p, refl, ground arith, ground arith)
  after_verify-eq-ok now cache expired user h = cc
  after_verify-eq-ok now cache invalid user h = cc

  with_token-eq-ok :
      (now : ℕ) (cache : C.State) (o : Option (List ℕ)) (user : User)
      → with_token C verify now cache o ≡ ok user
      → (token : List ℕ) × (p : JwtPayload) × (o ≡ some token)
        × (token ≢ [])
        × (verify token now ≡ valid p)
        × (is_revoked C p.jti now cache ≡ false)
        × (user ≡ user_of p)
  unfolding with_token
  with_token-eq-ok now cache none user h = cc
  with_token-eq-ok now cache (some []) user h = cc
  with_token-eq-ok now cache (some (c ∷ cs)) user h =
      let (p, v, r, u) = after_verify-eq-ok now cache (verify (c ∷ cs) now) user h in
      (c ∷ cs, p, refl, (λ e. ground arith), v, r, u)

  with_user-eq-ok :
      (r : Result Exception User) (user : Option User)
      → elim r [ ok u ↦ ok (some u) | err e ↦ err e ] ≡ ok user
      → (u : User) × (user ≡ some u) × (r ≡ ok u)
  with_user-eq-ok (ok u) user h = (u, ground arith, refl)
  with_user-eq-ok (err e) user h = cc

  -- A request to a route that is not public passes only with a user, and only if its header is 'Bearer', a space and
  -- a token, up to the end or another space, that is not empty, verifies, and is not in the blacklist of this pod.
  pub can_activate-Accepted :
      (authorization : Option (List ℕ)) (now : ℕ) (cache : C.State) (user : Option User)
      → can_activate C verify false authorization now cache ≡ ok user
      → (u : User) × (user ≡ some u) × Accepted authorization now cache u
  unfolding can_activate Accepted
  can_activate-Accepted authorization now cache user h =
      let (u, some_user, passed) = with_user-eq-ok _ user h in
      let (token, p, found, full, v, r, same) = with_token-eq-ok now cache _ u passed in
      (u, some_user, (token, p, extract-IsBearer authorization token found, full, v, r, same))

  -- A request that the guard refuses was not to a public route, and is answered with 401 and
  -- UNAUTHORIZED or TOKEN_EXPIRED, whatever went wrong.
  pub can_activate-err :
      (is_public : Bool) (authorization : Option (List ℕ)) (now : ℕ) (cache : C.State)
      (e : Exception)
      → can_activate C verify is_public authorization now cache ≡ err e
      → (is_public ≡ false)
        × ((e ≡ domain unauthorized 401) ⊎ (e ≡ domain error_code_token_expired 401))
  unfolding can_activate with_token after_verify
  can_activate-err is_public authorization now cache e h = ground arith

  -- A token that was revoked on this pod.
  can_activate-Revoked :
      (authorization : Option (List ℕ)) (token : List ℕ) (p : JwtPayload) (now exp : ℕ)
      (cache : C.State)
      → extract_token_from_header authorization ≡ some token
      → verify token now ≡ valid p
      → Revoked C p.jti exp cache
      → now < exp * 1000
      → can_activate C verify false authorization now cache ≡ err refused
  unfolding can_activate with_token after_verify Revoked
  can_activate-Revoked authorization token p now exp cache t v r l = ground (arith, r now l)

  can_activate_lem :
      (authorization : Option (List ℕ)) (token : List ℕ) (p : JwtPayload) (now : ℕ)
      (cache : C.State)
      → token ≢ []
      → extract_token_from_header authorization ≡ some token
      → verify token now ≡ valid p
      → is_revoked C p.jti now cache ≡ false
      → can_activate C verify false authorization now cache ≡ ok (some (user_of p))
  unfolding can_activate with_token after_verify
  can_activate_lem authorization token p now cache full t v r = ground arith

  module _ (R : Store ℕ (Unit {0})) where
    -- When a pod has handled a revocation as the first pod and without failures, before the token
    -- expired, it refuses the token with 401 until the token expires, whatever events it handles in
    -- between, if those about the same token carry the same expiry.
    pub revoked_token_refused :
        (f : Faults) (event : TokenRevokedEvent) (handled now : ℕ) (redis : R.State)
        (cache later : C.State) (authorization : Option (List ℕ)) (token : List ℕ) (p : JwtPayload)
        → NoFaults f
        → R.get event.jti handled redis ≡ none
        → handled / 1000 < event.exp
        → Handled C R
            (Agrees C R event.jti event.exp)
            (on_event C R f event handled redis cache).1
            later
        → extract_token_from_header authorization ≡ some token
        → verify token now ≡ valid p
        → p.jti ≡ event.jti
        → now < event.exp * 1000
        → can_activate C verify false authorization now later ≡ err refused
    revoked_token_refused f event handled now redis cache later authorization token p nf first fresh
          steps t v same soon =
        can_activate-Revoked authorization token p now event.exp later t v
          (subst (λ j. Revoked C j event.exp later) (sym same)
            (Handled-Revoked C R event.jti event.exp handled f redis cache later nf first fresh
              steps))
          soon

    -- Once a pod has handled a revocation as the first pod, any other pod that gets the event within
    -- 120 seconds still accepts the revoked token, if it verifies and was not in its blacklist before.
    pub second_pod_accepts :
        (f g : Faults) (event : TokenRevokedEvent) (handled late now : ℕ) (redis : R.State)
        (first second : C.State) (authorization : Option (List ℕ)) (token : List ℕ) (p : JwtPayload)
        → NoFaults f
        → R.get event.jti handled redis ≡ none
        → late < handled + idempotency_ttl
        → (token ≢ []) × (extract_token_from_header authorization ≡ some token)
        → verify token now ≡ valid p
        → is_revoked C p.jti now second ≡ false
        → can_activate C verify false authorization now
            (on_event C R g event late (on_event C R f event handled redis first).0 second).1
          ≡ ok (some (user_of p))
    unfolding can_activate
    second_pod_accepts f g event handled late now redis first second authorization token p nf
          none_yet soon (full, t) v r =
        subst (λ c. can_activate C verify false authorization now c ≡ ok (some (user_of p)))
          (sym (second_pod_ignores C R f g event handled late redis first second nf none_yet soon))
          (can_activate_lem authorization token p now second full t v r)
