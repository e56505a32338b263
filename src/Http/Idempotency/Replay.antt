-- ===== src/Http/Idempotency/Replay.antt =====
-- libs/cores/src/interceptors/idempotency.interceptor.ts: requests that share an idempotency key.
use ocean_chat_private.Prelude.{
  ℕ, ◌+◌, ◌*◌, ◌<◌, ◌≡◌, ◌≢◌, refl, sym, ap, subst, ◌∙◌, Option, none, some, Bool, true, false, err,
  ltb→lt, arith, if◌then◌else◌, Bool-cases, inl, inr, ◌⊎◌,
}
use ocean_chat_private.Exceptions.{Exception, domain, idempotency_conflict}
use ocean_chat_private.Store.{Store, setnx_until}
use ocean_chat_private.Http.Idempotency.{
  Request, CachedResponse, processing, completed, passes, runs, replays, conflicts, Handled,
  responds, throws, is_checked, is_success, processing_ttl, answer_of, with_key, with_header, begin,
  finish, Others, here, begins, finishes,
}

module _ {B : Type 0} (S : Store ℕ (CachedResponse B)) where
  -- The store holds the value under the key until the time.
  unfoldable pub Holds : ℕ → CachedResponse B → ℕ → S.State → Type 0
  Holds key v until s = (now : ℕ) → now < until → S.get key now s ≡ some v

  set-Holds :
      (key now ttl : ℕ) (v : CachedResponse B) (s : S.State)
      → Holds key v (now + ttl) (S.set key v ttl now s)
  unfolding Holds
  set-Holds key now ttl v s later h = S.get-set key v ttl now later s h

  set_other-Holds :
      (key k now ttl until : ℕ) (v w : CachedResponse B) (s : S.State)
      → k ≢ key
      → Holds key v until s
      → Holds key v until (S.set k w ttl now s)
  unfolding Holds
  set_other-Holds key k now ttl until v w s d h later l =
      S.get-set_other k key w ttl now later s (λ e. d (sym e)) ∙ h later l

  delete_other-Holds :
      (key k until : ℕ) (v : CachedResponse B) (s : S.State)
      → k ≢ key
      → Holds key v until s
      → Holds key v until (S.delete k s)
  unfolding Holds
  delete_other-Holds key k until v s d h later l =
      S.get-delete_other k key later s (λ e. d (sym e)) ∙ h later l

  with_key-store :
      (k now : ℕ) (s : S.State)
      → ((with_key S k now s).0 ≡ s)
        ⊎ ((S.get k now s ≡ none)
            × ((with_key S k now s).0 ≡ S.set k processing (processing_ttl * 1000) now s))
  unfolding with_key setnx_until
  with_key-store k now s = ground arith

  free_differs :
      (key k now until : ℕ) (v : CachedResponse B) (s : S.State)
      → now < until
      → Holds key v until s
      → S.get k now s ≡ none
      → k ≢ key
  unfolding Holds
  free_differs key k now until v s l h free e =
      let held = h now l in let same = ap (λ x. S.get x now s) e in ground arith

  -- A request that begins while the key is held does not change what it holds.
  with_key-Holds :
      (key k now until : ℕ) (v : CachedResponse B) (s : S.State)
      → now < until
      → Holds key v until s
      → Holds key v until (with_key S k now s).0
  with_key-Holds key k now until v s l h = elim (with_key-store k now s) [
    | inl same ↦ subst (Holds key v until) (sym same) h
    | inr (free, new) ↦ subst (Holds key v until) (sym new) (
        set_other-Holds key k now (processing_ttl * 1000) until v processing s
          (free_differs key k now until v s l h free) h)
  ]

  with_header-Holds :
      (key now until : ℕ) (v : CachedResponse B) (s : S.State) (o : Option ℕ)
      → now < until
      → Holds key v until s
      → Holds key v until (with_header S o now s).0
  unfolding with_header
  with_header-Holds key now until v s none l h = h
  with_header-Holds key now until v s (some k) l h = with_key-Holds key k now until v s l h

  begin-Holds :
      (key now until : ℕ) (v : CachedResponse B) (s : S.State) (r : Request)
      → now < until
      → Holds key v until s
      → Holds key v until (begin S r now s).0
  unfolding begin
  begin-Holds key now until v s r l h = elim (Bool-cases (is_checked r.method)) [
    | inl c ↦
        subst (λ b. Holds key v until (if b then with_header S r.key now s else (s, passes)).0)
          (sym c) (with_header-Holds key now until v s r.key l h)
    | inr c ↦
        subst (λ b. Holds key v until (if b then with_header S r.key now s else (s, passes)).0)
          (sym c) h
  ]

  finish-store :
      (set_throws : Bool) (jitter ttl k now status : ℕ) (body : B) (s : S.State)
      → ((finish S set_throws jitter ttl k now (responds status body) s).0 ≡ S.delete k s)
        ⊎ ((finish S set_throws jitter ttl k now (responds status body) s).0
            ≡ S.set k (completed status body) ((ttl + jitter) * 1000) now s)
  unfolding finish
  finish-store set_throws jitter ttl k now status body s = ground arith

  finish-Holds :
      (key until : ℕ) (v : CachedResponse B) (set_throws : Bool) (jitter ttl k now : ℕ)
      (h : Handled B) (s : S.State)
      → k ≢ key
      → Holds key v until s
      → Holds key v until (finish S set_throws jitter ttl k now h s).0
  unfolding finish
  finish-Holds key until v set_throws jitter ttl k now (throws e) s d h =
      delete_other-Holds key k until v s d h
  finish-Holds key until v set_throws jitter ttl k now (responds status body) s d h =
      elim (finish-store set_throws jitter ttl k now status body s) [
        | inl gone ↦ subst (Holds key v until) (sym gone) (delete_other-Holds key k until v s d h)
        | inr new ↦ subst (Holds key v until) (sym new) (
            set_other-Holds key k now ((ttl + jitter) * 1000) until v (completed status body) s d h)
      ]

  Others-Holds :
      {key until : ℕ} (v : CachedResponse B) {s t : S.State}
      → Others S key until s t
      → Holds key v until s
      → Holds key v until t
  Others-Holds v here h = h
  Others-Holds {key} {until} v {s} {t} (begins r now l before) h =
      begin-Holds key now until v _ r (ltb→lt now until l) (Others-Holds v before h)
  Others-Holds {key} {until} v {s} {t} (finishes f jitter ttl k now x d before) h =
      finish-Holds key until v f jitter ttl k now x _ d (Others-Holds v before h)

  -- A request with a key that is held gets its answer from the store, and changes nothing.
  begin-held :
      (key now until : ℕ) (v : CachedResponse B) (s : S.State) (r : Request)
      → is_checked r.method ≡ true
      → r.key ≡ some key
      → Holds key v until s
      → now < until
      → begin S r now s ≡ (s, answer_of (some v))
  unfolding begin with_header with_key setnx_until Holds
  begin-held key now until v s r c k h l = ground (arith, h now l)

  -- A request that takes a key marks it for a minute.
  begin_runs-store :
      (r : Request) (key now : ℕ) (s : S.State)
      → (begin S r now s).1 ≡ runs key
      → (begin S r now s).0 ≡ S.set key processing (processing_ttl * 1000) now s
  unfolding begin with_header with_key setnx_until answer_of
  begin_runs-store r key now s h = ground arith

  finish_success-store :
      (jitter ttl key done status : ℕ) (body : B) (s : S.State)
      → is_success status ≡ true
      → (finish S false jitter ttl key done (responds status body) s).0
        ≡ S.set key (completed status body) ((ttl + jitter) * 1000) done s
  unfolding finish
  finish_success-store jitter ttl key done status body s h = ground arith

  finish_failed-store :
      (set_throws : Bool) (jitter ttl key done : ℕ) (h : Handled B) (e : Exception) (s : S.State)
      → (finish S set_throws jitter ttl key done h s).1 ≡ err e
      → (finish S set_throws jitter ttl key done h s).0 ≡ S.delete key s
  unfolding finish
  finish_failed-store set_throws jitter ttl key done (throws x) e s h = refl
  finish_failed-store set_throws jitter ttl key done (responds status body) e s h = ground arith

  -- From the moment a request has taken a key, whatever other requests begin and whatever
  -- handlers of other keys finish, every POST, PUT or PATCH request with the key that begins
  -- within 60 seconds is refused with 409 and IDEMPOTENCY_CONFLICT and changes nothing.
  pub running_excludes :
      (first second : Request) (key start now : ℕ) (s t : S.State)
      → (begin S first start s).1 ≡ runs key
      → Others S key (start + processing_ttl * 1000) (begin S first start s).0 t
      → is_checked second.method ≡ true
      → second.key ≡ some key
      → now < start + processing_ttl * 1000
      → begin S second now t ≡ (t, conflicts (domain idempotency_conflict 409))
  unfolding answer_of
  running_excludes first second key start now s t r o c k l =
      begin-held key now _ processing t second c k
        (Others-Holds processing o (
          subst (Holds key processing _) (sym (begin_runs-store first key start s r))
            (set-Holds key start (processing_ttl * 1000) processing s)))
        l

  -- From the moment a handler has answered with a status from 200 to 299 and the response is
  -- stored, whatever other requests begin and whatever handlers of other keys finish, every POST,
  -- PUT or PATCH request with the key that begins before the response expires is answered with
  -- that status and body, whoever sends it to whatever route, and changes nothing.
  pub finished_replays :
      (second : Request) (key ttl jitter done now status : ℕ) (body : B) (s t : S.State)
      → is_success status ≡ true
      → Others S key
          (done + (ttl + jitter) * 1000)
          (finish S false jitter ttl key done (responds status body) s).0
          t
      → is_checked second.method ≡ true
      → second.key ≡ some key
      → now < done + (ttl + jitter) * 1000
      → begin S second now t ≡ (t, replays status body)
  unfolding answer_of finish
  finished_replays second key ttl jitter done now status body s t ok_status o c k l =
      begin-held key now _ (completed status body) t second c k
        (Others-Holds (completed status body) o (
          subst (Holds key (completed status body) _)
            (sym (finish_success-store jitter ttl key done status body s ok_status))
            (set-Holds key done ((ttl + jitter) * 1000) (completed status body) s)))
        l

  -- When the handler throws, or its response cannot be stored, the next request with the key runs its
  -- handler again.
  pub failed_releases :
      (second : Request) (set_throws : Bool) (jitter ttl key done now : ℕ) (h : Handled B)
      (e : Exception) (s : S.State)
      → (finish S set_throws jitter ttl key done h s).1 ≡ err e
      → is_checked second.method ≡ true
      → second.key ≡ some key
      → (begin S second now (finish S set_throws jitter ttl key done h s).0).1 ≡ runs key
  unfolding begin with_header with_key setnx_until finish
  failed_releases second set_throws jitter ttl key done now h e s f c k =
      let empty =
        ap (S.get key now) (finish_failed-store set_throws jitter ttl key done h e s f)
        ∙ S.get-delete key now s in
      ground arith
