-- ===== src/IdGenerator/Service/Outcome.antt =====
-- What one operation of a call of libs/id-generator/src/id-generator.service.ts does to the world and
-- to the number that the call is going to return.
use ocean_chat_private.Prelude.{
  ℕ, ◌≤◌, ◌≡◌, refl, ◌⊎◌, inl, inr, [], ◌∷◌, Option, none, some, Bool, true, false, Result, ok, err,
  ltb, if◌then◌else◌, arith,
}
use ocean_chat_private.Exceptions.{Exception}
use ocean_chat_private.IdGenerator.Decimal.{to_decimal}
use ocean_chat_private.IdGenerator.Script.{
  Text, SeqHash, Increment, IsIncrement, generate_seq, sync_segment, allocate_segment,
}
use ocean_chat_private.IdGenerator.Service.{
  World, Pod, fast_path, try_lock, recheck, allocate, cas_recheck, sync, release, finished,
  Delivery, replied, lost_before, lost_after, deliver, generated, synced, eval_generate, eval_sync,
  eval_allocate, setnx, del_if_equal, holds_lock, max_retries, cur_of, step, settle, loop,
  return_if, after_fast_path, after_lock, after_recheck, after_allocate, after_sync, after_cas,
  after_release,
}
use ocean_chat_private.IdGenerator.Service.Steps.{
  db_value, IsAllocated, Inv, empty, running, eval_generate-Inv, eval_sync-Inv, eval_allocate-Inv,
  eval_allocate-IsAllocated,
}

abbrev pub ok_value : Result Exception Text → Option Text
ok_value (ok t) = some t
ok_value (err e) = none

-- The number that a call has in hand.
abbrev pub result_of : Pod → Option Text
result_of (release value r) = ok_value r
result_of (finished r) = ok_value r
result_of _ = none

-- A segment that a call is about to install was allocated.
abbrev pub Pending : World → Pod → Type 0
Pending w (sync value retries max) = IsAllocated w max
Pending w _ = Unit

-- An operation issues no number, and then the call has nothing new in hand; or it issues one, and
-- the call has that one or, if the reply was lost, none.
pub data Outcome (w : World) (p : Pod) (w' : World) (p' : Pod) : Type 0 where
  quiet :
      db_value w.db_max ≤ db_value w'.db_max
      → w'.issued ≡ w.issued
      → (result_of p' ≡ none) ⊎ (result_of p' ≡ result_of p)
      → Outcome w p w' p'
  issues :
      (x : Text)
      → db_value w.db_max ≤ db_value w'.db_max
      → w'.issued ≡ x ∷ w.issued
      → (result_of p' ≡ none) ⊎ (result_of p' ≡ some x)
      → Outcome w p w' p'

result_of-loop : (retries : ℕ) → result_of (loop retries) ≡ none
result_of-loop retries = ground arith

generated-Outcome :
    (w : World) (p : Pod) (d : Delivery) (k : Option (Option Text) → Pod)
    (g : Option (SeqHash × Option Text))
    → (result_of (k none) ≡ none)
    → (result_of (k (some none)) ≡ none)
    → ((x : Text)
        → (result_of (k (some (some x))) ≡ none) ⊎ (result_of (k (some (some x))) ≡ some x))
    → let r = settle k (deliver d w (generated w g)) in Outcome w p r.0 r.1
generated-Outcome w p replied k none a b c = quiet (omega arith) refl (inl a)
generated-Outcome w p replied k (some (h, none)) a b c = quiet (omega arith) refl (inl b)
generated-Outcome w p replied k (some (h, some x)) a b c = issues x (omega arith) refl (c x)
generated-Outcome w p lost_before k g a b c = quiet (omega arith) refl (inl a)
generated-Outcome w p lost_after k none a b c = quiet (omega arith) refl (inl a)
generated-Outcome w p lost_after k (some (h, none)) a b c = quiet (omega arith) refl (inl a)
generated-Outcome w p lost_after k (some (h, some x)) a b c = issues x (omega arith) refl (inl a)

synced-Outcome :
    (w : World) (p : Pod) (d : Delivery) (value retries max : ℕ) (r : SeqHash × Bool)
    → let s = settle (after_sync value retries max) (deliver d w (synced w max r)) in
      Outcome w p s.0 s.1
synced-Outcome w p replied v n m (h, true) =
    issues (to_decimal (cur_of m)) (omega arith) refl (inr refl)
synced-Outcome w p replied v n m (h, false) = quiet (omega arith) refl (inl refl)
synced-Outcome w p lost_before v n m r = quiet (omega arith) refl (inl refl)
synced-Outcome w p lost_after v n m (h, true) =
    issues (to_decimal (cur_of m)) (omega arith) refl (inl refl)
synced-Outcome w p lost_after v n m (h, false) = quiet (omega arith) refl (inl refl)

return_if_result :
    (x : Text) (ret : Text → Pod) (next : Pod)
    → ((t : Text) → result_of (ret t) ≡ some t)
    → result_of next ≡ none
    → (result_of (return_if (some x) ret next) ≡ none)
      ⊎ (result_of (return_if (some x) ret next) ≡ some x)
return_if_result [] ret next h k = inl k
return_if_result (c ∷ x) ret next h k = inr (h (c ∷ x))

try_lock-Outcome :
    (uuid retries : ℕ) (d : Delivery) (w : World) (p : Pod)
    → let s = settle (after_lock uuid retries) (deliver d w (setnx uuid w)) in Outcome w p s.0 s.1
try_lock-Outcome uuid n replied w p = quiet (ground arith) (ground arith) (inl (ground arith))
try_lock-Outcome uuid n lost_before w p = quiet (omega arith) refl (inl refl)
try_lock-Outcome uuid n lost_after w p = quiet (ground arith) (ground arith) (inl refl)

allocate-Outcome :
    (value retries : ℕ) (d : Delivery) (w : World) (p : Pod)
    → let s = settle (after_allocate value retries) (deliver d w (eval_allocate w)) in
      Outcome w p s.0 s.1
unfolding allocate_segment
allocate-Outcome v n replied w p = quiet (ground arith) refl (inl refl)
allocate-Outcome v n lost_before w p = quiet (omega arith) refl (inl refl)
allocate-Outcome v n lost_after w p = quiet (ground arith) refl (inl refl)

release-Outcome :
    (value : ℕ) (r : Result Exception Text) (d : Delivery) (w : World)
    → let s = settle (after_release r) (deliver d w (del_if_equal value w)) in
      Outcome w (release value r) s.0 s.1
release-Outcome v r replied w = quiet (ground arith) (ground arith) (inr refl)
release-Outcome v r lost_before w = quiet (omega arith) refl (inl refl)
release-Outcome v r lost_after w = quiet (ground arith) (ground arith) (inl refl)

-- Every operation of every call has one of the two outcomes.
pub step-Outcome :
    (incr : Increment) (uuid : ℕ) (d : Delivery) (w : World) (p : Pod)
    → Outcome w p (step incr uuid d w p).0 (step incr uuid d w p).1
unfolding step eval_generate eval_sync
step-Outcome incr uuid d w fast_path =
    generated-Outcome w fast_path d after_fast_path (generate_seq incr w.hash) refl refl
      λ x. return_if_result x _ _ (λ t. refl) refl
step-Outcome incr uuid d w (try_lock n) = try_lock-Outcome uuid n d w (try_lock n)
step-Outcome incr uuid d w (recheck n) =
    generated-Outcome w (recheck n) d (after_recheck n) (generate_seq incr w.hash) refl
      (result_of-loop n) λ x. return_if_result x _ _ (λ t. refl) (result_of-loop n)
step-Outcome incr uuid d w (allocate v n) = allocate-Outcome v n d w (allocate v n)
step-Outcome incr uuid d w (cas_recheck v n) =
    generated-Outcome w (cas_recheck v n) d (after_cas v n) (generate_seq incr w.hash) refl
      (result_of-loop n) λ x. return_if_result x _ _ (λ t. refl) (result_of-loop n)
step-Outcome incr uuid d w (sync v n m) =
    synced-Outcome w (sync v n m) d v n m
      (sync_segment (to_decimal m) (to_decimal (cur_of m)) w.hash)
step-Outcome incr uuid d w (release v r) = release-Outcome v r d w
step-Outcome incr uuid d w (finished r) = quiet (omega arith) refl (inr refl)

either {ℓ κ} :
    {A : Type ℓ} (P : A → Type κ) (b : Bool) {x y : A} → P x → P y → P (if b then x else y)
either P true p q = p
either P false p q = q

-- The world's invariant survives every operation, whatever becomes of its reply.
deliver-Inv {ℓ} :
    {A : Type ℓ} (d : Delivery) (w : World) (r : World × Option A)
    → Inv w
    → Inv r.0
    → Inv (deliver d w r).0
deliver-Inv replied w r v k = k
deliver-Inv lost_before w r v k = v
deliver-Inv lost_after w r v k = k

pub Inv-lock : (w : World) (l : Option ℕ) → Inv w → Inv (record w { lock = l })
Inv-lock w l (empty e none_issued d) = empty e none_issued d
Inv-lock w l (running max cur ns h log dec le a d) =
    running max cur ns h log dec le
      (record { whole = a.whole; nonempty = a.nonempty; counted_in_db = a.counted_in_db }) d

setnx-Inv : (uuid : ℕ) (w : World) → Inv w → Inv (setnx uuid w).0
setnx-Inv uuid w v = go (Inv-lock w (some uuid) v) w.lock
  where
    go :
        Inv (record w { lock = some uuid })
        → (l : Option ℕ)
        → Inv (
            let r : World × Option Bool = elim l [
              | none ↦ (record w { lock = some uuid }, some true)
              | some v ↦ (w, some false)
            ] in
            r.0)
    go k none = k
    go k (some l) = v

del_if_equal-Inv : (value : ℕ) (w : World) → Inv w → Inv (del_if_equal value w).0
del_if_equal-Inv value w v = either Inv (holds_lock w.lock value) (Inv-lock w none v) v

pub step-Inv :
    (incr : Increment) (uuid : ℕ) (d : Delivery) (w : World) (p : Pod)
    → IsIncrement incr
    → Pending w p
    → Inv w
    → Inv (step incr uuid d w p).0
unfolding step
step-Inv incr uuid d w fast_path i a v = deliver-Inv d w _ v (eval_generate-Inv incr w i v)
step-Inv incr uuid d w (try_lock n) i a v = deliver-Inv d w _ v (setnx-Inv uuid w v)
step-Inv incr uuid d w (recheck n) i a v = deliver-Inv d w _ v (eval_generate-Inv incr w i v)
step-Inv incr uuid d w (allocate l n) i a v = deliver-Inv d w _ v (eval_allocate-Inv w v)
step-Inv incr uuid d w (cas_recheck l n) i a v = deliver-Inv d w _ v (eval_generate-Inv incr w i v)
step-Inv incr uuid d w (sync l n m) i a v = deliver-Inv d w _ v (eval_sync-Inv w m a v)
step-Inv incr uuid d w (release l r) i a v = deliver-Inv d w _ v (del_if_equal-Inv l w v)
step-Inv incr uuid d w (finished r) i a v = v

Pending-loop : (w : World) (n : ℕ) → Pending w (loop n)
Pending-loop w n = either (Pending w) (ltb n max_retries) tt tt

Pending-return_if :
    (w : World) (r : Option Text) (ret : Text → Pod) (n : ℕ)
    → ((t : Text) → Pending w (ret t))
    → Pending w (return_if r ret (loop n))
Pending-return_if w none ret n h = Pending-loop w n
Pending-return_if w (some []) ret n h = Pending-loop w n
Pending-return_if w (some (c ∷ t)) ret n h = h (c ∷ t)

Pending-after_lock : (w : World) (l n : ℕ) (r : Option Bool) → Pending w (after_lock l n r)
Pending-after_lock w l n none = tt
Pending-after_lock w l n (some true) = tt
Pending-after_lock w l n (some false) = tt

Pending-generated :
    (w : World) (k : Option (Option Text) → Pod) (r : Option (Option Text))
    → Pending w (k none)
    → ((x : Option Text) → Pending w (k (some x)))
    → Pending w (k r)
Pending-generated w k none a b = a
Pending-generated w k (some x) a b = b x

Pending-after_allocate :
    (l n : ℕ) (d : Delivery) (w : World)
    → Inv w
    → let s = settle (after_allocate l n) (deliver d w (eval_allocate w)) in Pending s.0 s.1
Pending-after_allocate l n replied w v = eval_allocate-IsAllocated w v
Pending-after_allocate l n lost_before w v = tt
Pending-after_allocate l n lost_after w v = tt

Pending-after_sync : (w : World) (l n m : ℕ) (r : Option Bool) → Pending w (after_sync l n m r)
Pending-after_sync w l n m none = tt
Pending-after_sync w l n m (some true) = tt
Pending-after_sync w l n m (some false) = tt

Pending-after_release :
    (w : World) (r : Result Exception Text) (x : Option (Unit {0})) → Pending w (after_release r x)
Pending-after_release w r none = tt
Pending-after_release w r (some x) = tt

-- Only `allocate` leads to `sync`, with the segment that it got.
pub step-Pending :
    (incr : Increment) (uuid : ℕ) (d : Delivery) (w : World) (p : Pod)
    → Inv w
    → Pending (step incr uuid d w p).0 (step incr uuid d w p).1
unfolding step
step-Pending incr uuid d w fast_path v =
    Pending-generated _ after_fast_path _ tt λ x. Pending-return_if _ x _ 0 (λ t. tt)
step-Pending incr uuid d w (try_lock n) v = Pending-after_lock _ uuid n _
step-Pending incr uuid d w (recheck n) v =
    Pending-generated _ (after_recheck n) _ tt λ x. Pending-return_if _ x _ n (λ t. tt)
step-Pending incr uuid d w (allocate l n) v = Pending-after_allocate l n d w v
step-Pending incr uuid d w (cas_recheck l n) v =
    Pending-generated _ (after_cas l n) _ tt λ x. Pending-return_if _ x _ n (λ t. tt)
step-Pending incr uuid d w (sync l n m) v = Pending-after_sync _ l n m _
step-Pending incr uuid d w (release l r) v = Pending-after_release _ r _
step-Pending incr uuid d w (finished r) v = tt
