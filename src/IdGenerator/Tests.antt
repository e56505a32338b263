-- ===== src/IdGenerator/Tests.antt =====
-- Runs of the sequence generator of libs/id-generator/src at concrete inputs.
use ocean_chat_private.Prelude.{
  ℕ, zero, suc, ◌+◌, ◌-◌, ◌*◌, ◌/◌, ◌%◌, ◌<◌, ◌≡◌, refl, ap, List, [], ◌∷◌, ◌++◌, map, some, false,
  ok, err, All, arith,
}
use ocean_chat_private.Exceptions.{
  domain, infrastructure, service_unavailable, invalid_sequence_key,
}
use ocean_chat_private.IdGenerator.Decimal.{
  to_digits, to_decimal, digit, is_greater, is_greater_or_equal,
}
use ocean_chat_private.IdGenerator.Decimal.Order.{comparisons_are_numeric}
use ocean_chat_private.IdGenerator.Script.{
  Text, Increment, IsIncrement, generate_seq, sync_segment, allocate_segment,
}
use ocean_chat_private.IdGenerator.Service.{
  World, Pod, fast_path, finished, replied, step, eval_generate, eval_sync, generate_sync_seq_id,
}
use ocean_chat_private.IdGenerator.Service.Steps.{Decreasing, empty}
use ocean_chat_private.IdGenerator.Service.Completion.{
  run, Completes, alone-Completes, blocked_times_out,
}
use ocean_chat_private.IdGenerator.Service.Interleaving.{System, Reach, here, next, arrive, act}
use ocean_chat_private.IdGenerator.Service.Interleaving.Ordered.{
  FromIssued, Distinct, initial, issued_increasing, results-Distinct,
}

-- HINCRBY without its overflow: the number behind a text, and its successor.
value : ℕ → Text → ℕ
value acc [] = acc
value acc (c ∷ t) = value (acc * 10 + (c - b'0')) t

abbrev count_text : Increment
count_text t = some (to_decimal (suc (value 0 t)))

value-snoc : (acc : ℕ) (t : Text) (c : ℕ) → value acc (t ++ c ∷ []) ≡ value acc t * 10 + (c - b'0')
unfolding value
value-snoc acc [] c = refl
value-snoc acc (x ∷ t) c = value-snoc (acc * 10 + (x - b'0')) t c

value-to_digits : (f n : ℕ) → n < f → value 0 (to_digits f n) ≡ n
unfolding to_digits value
value-to_digits zero n h = absurd (omega arith)
value-to_digits (suc f) n h =
    ground (arith, value-snoc 0 (to_digits f (n / 10)) (digit (n % 10)), value-to_digits f (n / 10))

count_text-eq : (n : ℕ) → count_text (to_decimal n) ≡ some (to_decimal (suc n))
count_text-eq n = ap (λ k. some (to_decimal (suc k))) (value-to_digits (suc n) n (omega arith))

count_text-IsIncrement : IsIncrement count_text
count_text-IsIncrement = record {
  sound = λ n t e. cc (count_text-eq n);
  succeeds = λ n h. count_text-eq n;
}

abbrev solo : World → Pod → System
solo w p = record { world = w; calls = p ∷ [] }

solo-run :
    (s : System) (n : ℕ) (w : World) (p : Pod)
    → Reach count_text s (solo w p)
    → Reach count_text s (solo (run count_text 7 n w p).0 (run count_text 7 n w p).1)
unfolding run
solo-run s zero w p r = r
solo-run s (suc n) w p r = solo-run s n _ _ (next r (act [] p [] 7 replied refl))

abbrev start : World
start = (initial (some 3000)).world

abbrev last_state : System
last_state = solo (run count_text 7 5 start fast_path).0 (run count_text 7 5 start fast_path).1

last_state-Reach : Reach count_text (initial (some 3000)) last_state
last_state-Reach = solo-run (initial (some 3000)) 5 start fast_path (next here arrive)

-- The first number of the fourth segment.
first_number : (run count_text 7 5 start fast_path).1 ≡ finished (ok (to_decimal 3001))
unfolding run step eval_generate eval_sync generate_seq sync_segment allocate_segment is_greater
first_number = refl

bad_key : generate_sync_seq_id (b'a' ∷ b'/' ∷ []) ≡ finished (err (domain invalid_sequence_key 400))
unfolding generate_sync_seq_id
bad_key = refl

good_key : generate_sync_seq_id (b'a' ∷ b':' ∷ b'1' ∷ []) ≡ fast_path
unfolding generate_sync_seq_id
good_key = refl

comparisons_are_numeric_example :
    (is_greater (to_decimal 999) (some (to_decimal 1000)) ≡ false)
    × (is_greater_or_equal (to_decimal 999) (to_decimal 1000) ≡ false)
comparisons_are_numeric_example = comparisons_are_numeric 999 1000

issued_increasing_example :
    (ns : List ℕ) × (last_state.world.issued ≡ map to_decimal ns) × Decreasing ns
issued_increasing_example =
    issued_increasing count_text (some 3000) last_state count_text-IsIncrement refl last_state-Reach

results-Distinct_example :
    All (FromIssued last_state.world) last_state.calls × Distinct last_state.calls
results-Distinct_example =
    results-Distinct count_text (some 3000) last_state count_text-IsIncrement refl last_state-Reach

alone-Completes_example : Completes start (run count_text 7 5 start fast_path)
alone-Completes_example =
    alone-Completes count_text 7 start count_text-IsIncrement (empty refl refl refl) refl
      (omega arith)

abbrev locked : World
locked = record start { lock = some 9 }

blocked_times_out_example :
    run count_text 7 121 locked fast_path
    ≡ (locked, finished (err (infrastructure service_unavailable 503)))
unfolding generate_seq
blocked_times_out_example = blocked_times_out count_text 7 locked (9, refl, refl)
