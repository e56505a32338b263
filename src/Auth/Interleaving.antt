-- ===== src/Auth/Interleaving.antt =====
-- apps/oceanchat-auth/src/oceanchat-auth.service.ts: any number of calls of refreshToken for one device of one
-- user, in any order of their awaited calls, next to logins and logouts. Each call has its own lock value, by
-- which it is named. The revocations, which Sessions has, are left out.
pub mod Spent
pub mod Effect
pub mod Once
mod Tests
use ocean_chat_private.Prelude.{
  ℕ, List, [], ◌∷◌, Option, none, some, Bool, true, false, Result, ok, err, ◌==◌, ◌≢◌,
  if◌then◌else◌,
}
use ocean_chat_private.Exceptions.{
  Exception, domain, infrastructure, unauthorized, token_refresh_error, unexpected_error,
}
use ocean_chat_private.Auth.Sessions.{
  Session, session, Stored, corrupted, Hash, hget, hset, hdel, Fresh, wrapped, reused, new_session,
  unless_fails,
}

-- The hash of the user's sessions, and the lock of the device.
pub record World : Type 0 where
  pub sessions : Hash
  pub lock : Option ℕ

abbrev pub Answer : Type 0
Answer = Result Exception (ℕ × ℕ)

-- The awaited call before which `refreshToken` stands: setnx, hget, hgetall, del, findOneById, the MULTI of
-- generateTokens, and delIfEqual; or it has returned.
pub data Point : Type 0 where
  locks reads collects deletes : Point
  asks_user stores : Session → Point
  releases finished : Answer → Point

-- What the awaited call does: it returns or fails, and one that fails may have been carried out, with its reply
-- lost; then whether signing the new tokens fails before the MULTI, whether the user is there, and the new tokens.
pub record Turn : Type 0 where
  pub fails : Option Exception
  pub lost : Bool
  pub sign : Option Exception
  pub user_exists : Bool
  pub fresh : Fresh

-- An exception within the `try`.
abbrev pub caught : Exception → Point
caught e = releases (err (wrapped (infrastructure token_refresh_error 500) e))

abbrev pub after_hget : ℕ → Option Stored → Point
after_hget jti none = releases (err reused)
after_hget jti (some corrupted) = releases (err reused)
after_hget jti (some (session old)) = if old.refresh_jti == jti then asks_user old else collects

abbrev pub unlocked : ℕ → Option ℕ → Option ℕ
unlocked mine none = none
unlocked mine (some v) = if v == mine then none else some v

-- A call that changes the world: to `done` where it is carried out.
abbrev pub attempt :
    Option Exception → Bool → World → World × Point → (Exception → Point) → World × Point
attempt none lost w done failed = done
attempt (some e) lost w done failed = (if lost then done.0 else w, failed e)

-- The next awaited call of the call `mine`, for the refresh token with the id `jti`, and the code up to the one
-- after it.
unfoldable pub step : ℕ → ℕ → ℕ → Turn → World → Point → World × Point
unfolding wrapped hget hset
step device mine jti t w locks =
    attempt t.fails t.lost w
      (elim w.lock [
        | none ↦ (record w { lock = some mine }, reads)
        | some v ↦ (w, finished (err reused))
      ])
      (λ e. finished (err (infrastructure token_refresh_error 500)))
step device mine jti t w reads =
    unless_fails t.fails (w, after_hget jti (hget device w.sessions)) (λ e. (w, caught e))
step device mine jti t w collects = unless_fails t.fails (w, deletes) (λ e. (w, caught e))
step device mine jti t w deletes =
    attempt t.fails t.lost w (record w { sessions = [] }, releases (err reused)) caught
step device mine jti t w (asks_user old) =
    unless_fails t.fails
      (w, if t.user_exists then stores old else releases (err (domain unauthorized 401)))
      (λ e. (w, caught e))
step device mine jti t w (stores old) =
    unless_fails t.sign
      (attempt t.fails t.lost w
        (
          record w { sessions = hset device (new_session t.fresh) w.sessions },
          releases (ok (t.fresh.access_token, t.fresh.refresh_token)),
        )
        (λ e. caught (wrapped (infrastructure unexpected_error 500) e)))
      (λ e. (w, caught e))
step device mine jti t w (releases answer) =
    attempt t.fails t.lost w (record w { lock = unlocked mine w.lock }, finished answer)
      (λ e. finished answer)
step device mine jti t w (finished answer) = (w, finished answer)

abbrev pub Points : Type 0
Points = ℕ → Point

abbrev pub put : ℕ → Point → Points → Points
put i p points k = if k == i then p else points k

-- The calls: `jti_of` is the id of the refresh token of each. An id that is given out is not `jti`.
module _ (device : ℕ) (jti_of : ℕ → ℕ) (jti : ℕ) where
  pub data Step (w : World) (points : Points) : World → Points → Type 0 where
    moves :
        (i : ℕ) (t : Turn)
        → t.fresh.refresh_jti ≢ jti
        → Step w points
            (step device i (jti_of i) t w (points i)).0
            (put i (step device i (jti_of i) t w (points i)).1 points)
    logs_in :
        (d : ℕ) (fresh : Fresh)
        → fresh.refresh_jti ≢ jti
        → Step w points (record w { sessions = hset d (new_session fresh) w.sessions }) points
    logs_out : (d : ℕ) → Step w points (record w { sessions = hdel d w.sessions }) points
    ends_family : Step w points (record w { sessions = [] }) points

  pub data Reach (w : World) (points : Points) : World → Points → Type 0 where
    here : Reach w points w points
    next :
        {v u : World} {ps qs : Points} → Reach w points v ps → Step v ps u qs → Reach w points u qs
