-- ===== src/IdGenerator/Service.antt =====
-- libs/id-generator/src/id-generator.service.ts: a call of `generateSyncSeqId` as a machine that
-- makes one call to Redis or MongoDB at each step, so that calls of many pods interleave. All calls
-- are for one valid key.
pub mod Steps
pub mod Outcome
pub mod Interleaving
pub mod Completion
use ocean_chat_private.Prelude.{
  ℕ, suc, ◌+◌, ◌-◌, List, [], ◌∷◌, Option, none, some, Bool, true, false, not, ◌&&◌, ◌||◌, Result,
  ok, err, ltb, leb, ◌==◌, length, all, if◌then◌else◌,
}
use ocean_chat_private.Exceptions.{
  Exception, domain, infrastructure, invalid_sequence_key, service_unavailable, service_error,
}
use ocean_chat_private.IdGenerator.Decimal.{to_decimal}
use ocean_chat_private.IdGenerator.Script.{
  Text, SeqHash, Increment, generate_seq, sync_segment, allocate_segment,
}

abbrev pub step_size : ℕ
step_size = 1000

abbrev pub max_retries : ℕ
max_retries = 60

-- /^[a-zA-Z0-9_:-]{1,255}$/
unfoldable pub key_is_valid : Text → Bool
key_is_valid key = leb 1 (length key) && leb (length key) 255 && all safe key
  where
    safe : ℕ → Bool
    safe c =
        (leb b'a' c && leb c b'z')
        || (leb b'A' c && leb c b'Z')
        || (leb b'0' c && leb c b'9')
        || c == b'_'
        || c == b':'
        || c == b'-'

-- What the pods share for the key: the hash `seq:<key>`, the value of `lock:seq:<key>`, the `max` of
-- the sequence document. `issued` is no state of the program: it lists the numbers that Redis has
-- given out, newest first.
pub record World : Type 0 where
  pub hash : SeqHash
  pub lock : Option ℕ
  pub db_max : Option ℕ
  pub issued : List Text

-- Where a call stands, by the operation that comes next. `lock` is the lock's value, a UUID.
pub data Pod : Type 0 where
  fast_path : Pod
  try_lock recheck : (retries : ℕ) → Pod
  allocate cas_recheck : (lock retries : ℕ) → Pod
  sync : (lock retries max : ℕ) → Pod
  release : (lock : ℕ) → Result Exception Text → Pod
  finished : Result Exception Text → Pod

-- What becomes of an operation: its reply arrives, it fails before it takes effect, or its reply is
-- lost after it took effect. In the latter two the caller sees an error.
pub data Delivery : Type 0 where
  replied lost_before lost_after : Delivery

abbrev pub deliver {ℓ} : {A : Type ℓ} → Delivery → World → World × Option A → World × Option A
deliver replied w r = r
deliver lost_before w r = (w, none)
deliver lost_after w r = (r.0, none)

abbrev pub generated : World → Option (SeqHash × Option Text) → World × Option (Option Text)
generated w none = (w, none)
generated w (some (h, none)) = (record w { hash = h }, some none)
generated w (some (h, some seq)) = (record w { hash = h; issued = seq ∷ w.issued }, some (some seq))

-- `redisService.eval(GENERATE_SEQ_LUA, ...)`; the inner option is the script's reply.
unfoldable pub eval_generate : Increment → World → World × Option (Option Text)
eval_generate incr w = generated w (generate_seq incr w.hash)

-- `redisService.setnx(lockKey, lockValue, 5)`.
abbrev pub setnx : ℕ → World → World × Option Bool
setnx value w = elim w.lock [
  | none ↦ (record w { lock = some value }, some true)
  | some v ↦ (w, some false)
]

-- `redisService.delIfEqual(lockKey, lockValue)`.
abbrev pub holds_lock : Option ℕ → ℕ → Bool
holds_lock none value = false
holds_lock (some v) value = v == value

abbrev pub del_if_equal : ℕ → World → World × Option (Unit {0})
del_if_equal value w = (if holds_lock w.lock value then record w { lock = none } else w, some tt)

abbrev pub eval_allocate : World → World × Option ℕ
eval_allocate w =
    let max = allocate_segment step_size w.db_max in (record w { db_max = some max }, some max)

abbrev pub cur_of : ℕ → ℕ
cur_of max = max - step_size + 1

abbrev pub synced : World → ℕ → SeqHash × Bool → World × Option Bool
synced w max (h, true) =
    (record w { hash = h; issued = to_decimal (cur_of max) ∷ w.issued }, some true)
synced w max (h, false) = (record w { hash = h }, some false)

-- `redisService.eval(SYNC_SEGMENT_LUA, ...)`.
unfoldable pub eval_sync : ℕ → World → World × Option Bool
eval_sync max w = synced w max (sync_segment (to_decimal max) (to_decimal (cur_of max)) w.hash)

-- The head of the `while` loop.
abbrev pub loop : ℕ → Pod
loop retries =
    if ltb retries max_retries
    then try_lock retries
    else finished (err (infrastructure service_unavailable 503))

abbrev pub allocation_failed : Result Exception Text
allocation_failed = err (infrastructure service_error 503)

-- `if (seq) { return seq; }`: an empty text is false in JavaScript.
abbrev pub return_if : Option Text → (Text → Pod) → Pod → Pod
return_if none ret next = next
return_if (some []) ret next = next
return_if (some (c ∷ seq)) ret next = ret (c ∷ seq)

abbrev pub after_fast_path : Option (Option Text) → Pod
after_fast_path none = finished (err (infrastructure service_unavailable 503))
after_fast_path (some r) = return_if r (λ seq. finished (ok seq)) (loop 0)

abbrev pub after_lock : ℕ → ℕ → Option Bool → Pod
after_lock value retries none = finished allocation_failed
after_lock value retries (some true) = allocate value retries
after_lock value retries (some false) = recheck (suc retries)

abbrev pub after_recheck : ℕ → Option (Option Text) → Pod
after_recheck retries none = finished allocation_failed
after_recheck retries (some r) = return_if r (λ seq. finished (ok seq)) (loop retries)

-- From here on the `finally` block releases the lock.
abbrev pub after_allocate : ℕ → ℕ → Option ℕ → Pod
after_allocate value retries none = release value allocation_failed
after_allocate value retries (some max) = sync value retries max

abbrev pub after_sync : ℕ → ℕ → ℕ → Option Bool → Pod
after_sync value retries max none = release value allocation_failed
after_sync value retries max (some true) = release value (ok (to_decimal (cur_of max)))
after_sync value retries max (some false) = cas_recheck value retries

-- Where no number comes back, `acquired` is reset and the loop goes on with the same `retries`.
abbrev pub after_cas : ℕ → ℕ → Option (Option Text) → Pod
after_cas value retries none = release value allocation_failed
after_cas value retries (some r) = return_if r (λ seq. release value (ok seq)) (loop retries)

abbrev pub after_release : Result Exception Text → Option (Unit {0}) → Pod
after_release result none = finished allocation_failed
after_release result (some _) = finished result

abbrev pub settle {ℓ} : {A : Type ℓ} → (Option A → Pod) → World × Option A → World × Pod
settle k (w, r) = (w, k r)

-- One operation of a call. `uuid` is the lock value that a new turn of the loop draws.
unfoldable pub step : Increment → ℕ → Delivery → World → Pod → World × Pod
step incr uuid d w fast_path = settle after_fast_path (deliver d w (eval_generate incr w))
step incr uuid d w (try_lock retries) =
    settle (after_lock uuid retries) (deliver d w (setnx uuid w))
step incr uuid d w (recheck retries) =
    settle (after_recheck retries) (deliver d w (eval_generate incr w))
step incr uuid d w (allocate value retries) =
    settle (after_allocate value retries) (deliver d w (eval_allocate w))
step incr uuid d w (sync value retries max) =
    settle (after_sync value retries max) (deliver d w (eval_sync max w))
step incr uuid d w (cas_recheck value retries) =
    settle (after_cas value retries) (deliver d w (eval_generate incr w))
step incr uuid d w (release value result) =
    settle (after_release result) (deliver d w (del_if_equal value w))
step incr uuid d w (finished result) = (w, finished result)

-- `generateSyncSeqId(key)`: an invalid key is refused before any operation.
unfoldable pub generate_sync_seq_id : Text → Pod
unfolding key_is_valid
generate_sync_seq_id key =
    if key_is_valid key then fast_path else finished (err (domain invalid_sequence_key 400))
