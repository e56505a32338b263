-- ===== src/Auth/Interleaving/Tests.antt =====
-- Two refreshes that overlap: both present the token with the id 9, which is the last one of the device 5.
use ocean_chat_private.Prelude.{ℕ, ◌≡◌, ◌≢◌, refl, [], ◌∷◌, none, some, false, true, ok, err, arith}
use ocean_chat_private.Auth.Sessions.{Session, session, hget, hset, reused, new_session}
use ocean_chat_private.Auth.Interleaving.{
  World, Point, locks, reads, asks_user, stores, releases, finished, Turn, step, Points, put, Reach,
  here, next, moves,
}
use ocean_chat_private.Auth.Interleaving.Spent.{Served}
use ocean_chat_private.Auth.Interleaving.Once.{one_refresh_serves}

abbrev old : Session
old = record { access_token = 1; refresh_token = 2; access_jti = 3; refresh_jti = 9 }

abbrev start : World
start = record { sessions = (5, session old) ∷ []; lock = none }

abbrev goes : Turn
goes = record {
  fails = none;
  lost = false;
  sign = none;
  user_exists = true;
  fresh = record { access_jti = 13; refresh_jti = 19; access_token = 11; refresh_token = 12 };
}

new_id : goes.fresh.refresh_jti ≢ 9
new_id e = omega (arith, e)

abbrev rotated : World
rotated = record { sessions = (5, new_session goes.fresh) ∷ []; lock = some 1 }

-- The call 1 takes the lock, the call 2 is refused, and the call 1 goes on until it has stored the new tokens.
abbrev points : Points
points = put 1 (releases (ok (11, 12))) (
    put 1 (stores old)
      (put 1 (asks_user old) (put 2 (finished (err reused)) (put 1 reads (λ k. locks)))))

overlapping : Reach 5 (λ k. 9) 9 start (λ k. locks) rotated points
unfolding step hget hset
overlapping =
    next
      (next
        (next (next (next here (moves 1 goes new_id)) (moves 2 goes new_id)) (moves 1 goes new_id))
        (moves 1 goes new_id))
      (moves 1 goes new_id)

one_refresh_serves_example : ◌≡◌ {A = ℕ} 1 1
one_refresh_serves_example =
    one_refresh_serves 5 9 (λ k. 9) start rotated points 1 1 overlapping refl refl tt tt

-- If the lock of the call 1 runs out after it has asked for the user, the call 2 reads the same session, and both
-- are served.
abbrev ran_out : World → World
ran_out w = record w { lock = none }

abbrev then_goes : ℕ → World × Point → World × Point
then_goes i s = step 5 i 9 goes s.0 s.1

abbrev slow : World × Point
slow = then_goes 1 (then_goes 1 (then_goes 1 (start, locks)))

abbrev quick : World × Point
quick = then_goes 2 (then_goes 2 (then_goes 2 (ran_out slow.0, locks)))

abbrev slow_stored : World × Point
slow_stored = then_goes 1 (quick.0, slow.1)

both-Served : Served slow_stored.1 × Served (then_goes 2 (slow_stored.0, quick.1)).1
unfolding step hget
both-Served = (tt, tt)
