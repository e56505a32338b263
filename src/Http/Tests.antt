-- ===== src/Http/Tests.antt =====
-- libs/cores/src/interceptors and libs/common-exceptions/src/filters on concrete requests and errors.
use ocean_chat_private.Prelude.{
  ℕ, ◌≡◌, ◌≤◌, refl, List, [], ◌∷◌, none, some, true, false, ok, arith,
}
use ocean_chat_private.Prelude.Int.{pos}
use ocean_chat_private.Monkey.Framer.{unframe_ws_message}
use ocean_chat_private.Monkey.Header.RoundTrip.{header_of}
use ocean_chat_private.Exceptions.{domain, idempotency_conflict, other}
use ocean_chat_private.Store.{setnx_until}
use ocean_chat_private.Store.Table.{table}
use ocean_chat_private.Http.Idempotency.{
  Request, post, get, CachedResponse, replays, conflicts, runs, passes, responds, with_key,
  with_header, begin, finish, here, begins, finishes,
}
use ocean_chat_private.Http.Idempotency.Replay.{running_excludes, finished_replays, failed_releases}
use ocean_chat_private.Http.Filter.{
  Thrown, app, infrastructure, unknown, ErrorResponseDto, create_error_response,
  handle_http_exception, WsData, catch_ws, req_id_of, exception_ack,
}
use ocean_chat_private.Http.Filter.Responses.{infrastructure_hidden, ws_answer_matches}

abbrev Redis : Type 0
Redis = (table (CachedResponse ℕ)).State

abbrev no_keys : Redis
no_keys = (table (CachedResponse ℕ)).empty

abbrev order : Request
order = record { method = post; key = some 5; cache_ttl = none; user = 1; route = 1 }

-- Another user sends the same key to another route.
abbrev foreign : Request
foreign = record { method = post; key = some 5; cache_ttl = none; user = 2; route = 9 }

abbrev unrelated : Request
unrelated = record { method = post; key = some 6; cache_ttl = none; user = 3; route = 1 }

abbrev locked : Redis
locked = (begin (table (CachedResponse ℕ)) order 1000 no_keys).0

abbrev busy : Redis
busy = (begin (table (CachedResponse ℕ)) unrelated 2000 locked).0

running_excludes_example :
    begin (table (CachedResponse ℕ)) foreign 3000 busy
    ≡ (busy, conflicts (domain idempotency_conflict 409))
unfolding begin with_header with_key setnx_until
running_excludes_example =
    running_excludes (table (CachedResponse ℕ)) order foreign 5 1000 3000 no_keys busy refl
      (begins unrelated 2000 refl here) refl refl (omega arith)

abbrev stored : Redis
stored = (finish (table (CachedResponse ℕ)) false 10 1800 5 4000 (responds 201 77) busy).0

abbrev later : Redis
later = (finish (table (CachedResponse ℕ)) false 0 1800 6 4500 (responds 400 1) stored).0

finished_replays_example :
    begin (table (CachedResponse ℕ)) foreign 5000 later ≡ (later, replays 201 77)
unfolding begin with_header with_key
finished_replays_example =
    finished_replays (table (CachedResponse ℕ)) foreign 5 1800 10 4000 5000 201 77 busy later refl
      (finishes false 0 1800 6 4500 (responds 400 1) (λ e. ground arith) here) refl refl
      (omega arith)

failed_again :
    (begin
      (table (CachedResponse ℕ))
      foreign
      5000
      (finish (table (CachedResponse ℕ)) true 0 1800 5 4000 (responds 200 1) locked).0).1
    ≡ runs 5
unfolding finish
failed_again =
    failed_releases (table (CachedResponse ℕ)) foreign true 0 1800 5 4000 5000 (responds 200 1)
      other locked refl refl refl

-- A GET request takes no key.
get_passes :
    (begin
      (table (CachedResponse ℕ))
      (record { method = get; key = some 5; cache_ttl = none; user = 1; route = 1 })
      3000
      locked).1
    ≡ passes
unfolding begin
get_passes = refl

abbrev with_details : Thrown ℕ
with_details = app infrastructure (7 ∷ []) 4 404 (some 1)

abbrev without_details : Thrown ℕ
without_details = app infrastructure [] 5 404 none

details_hidden :
    (handle_http_exception [] (1 ∷ []) with_details
      ≡ handle_http_exception [] (1 ∷ []) without_details)
    × (500 ≤ (handle_http_exception [] (1 ∷ []) with_details).status_code)
details_hidden = infrastructure_hidden [] (1 ∷ []) (7 ∷ []) [] 4 5 404 (some 1) none

abbrev zeros : List ℕ
zeros = 0 ∷ 0 ∷ 0 ∷ 0 ∷ 0 ∷ 0 ∷ 0 ∷ 0 ∷ 0 ∷ 0 ∷ 0 ∷ 0 ∷ []

abbrev encode_ack : ErrorResponseDto ℕ → List ℕ
encode_ack dto = dto.message

abbrev ws_data : WsData
ws_data = record { header_req_id = some (pos 9); req_id = none }

ws_answer_matches_run :
    (b : List ℕ) × (catch_ws [] (1 ∷ []) encode_ack zeros true ws_data unknown ≡ ok (some b))
    × (unframe_ws_message b
        ≡ ok (
          header_of
              (record { cmd = pos exception_ack; flags = pos 0; req_id = pos 9; len = pos 1 }),
          1 ∷ [],
        ))
unfolding create_error_response req_id_of
ws_answer_matches_run =
    ws_answer_matches [] (1 ∷ []) encode_ack zeros ws_data unknown 9 refl refl (omega arith)
      (omega arith)
