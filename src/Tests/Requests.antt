-- ===== src/Tests/Requests.antt =====
-- Requests: runs with a parser that reports a whole message in the first call, and callbacks alone.
use my_async_lib.Base.{◌≡◌, refl, true, List, [], ◌∷◌, none, some}
use my_async_lib.Http.{
  Bytes, url, header_field, header_value, headers_complete, body, message_complete, hpe_ok, Llhttp,
  ParserContext, empty_request, on_events, parse, same_bytes,
}
use my_async_lib.Http.Callbacks.{
  lookup, header_events, header_events-stored, empty_value_lost, spans_kept,
}
use my_async_lib.Http.Consumed.{Reported, parse-Reported}

abbrev whole_message : Llhttp
whole_message = record {
  State = Unit {0};
  reset = tt;
  execute = λ s blk. (s, hpe_ok, url blk ∷ headers_complete ∷ message_complete ∷ []);
  error_pos = λ s. none;
  resume = λ s. s;
  method_name = λ s. 71 ∷ 69 ∷ 84 ∷ [];
  should_keep_alive = λ s. true;
}

parse-Reported_example :
    Reported whole_message ((47 ∷ []) ∷ []) (parse whole_message ((47 ∷ []) ∷ []))
parse-Reported_example = parse-Reported whole_message ((47 ∷ []) ∷ [])

abbrev fresh : ParserContext
fresh = record { req = empty_request; current_field = []; current_value = [] }

-- The first field comes again.
abbrev three_headers : List (Bytes × Bytes)
three_headers = (1 ∷ [], 2 ∷ []) ∷ (3 ∷ [], 4 ∷ []) ∷ (1 ∷ [], 5 ∷ []) ∷ []

header_events-stored_example :
    lookup (1 ∷ []) (on_events fresh (header_events three_headers)).req.headers ≡ some (5 ∷ [])
unfolding same_bytes
header_events-stored_example =
    header_events-stored (1 ∷ []) fresh three_headers refl refl
      (refl, refl, (refl, refl, (refl, refl, tt)))

empty_value_lost_example :
    on_events fresh (header_field (1 ∷ []) ∷ header_value [] ∷ header_field (2 ∷ []) ∷ [])
    ≡ on_events fresh (header_field (2 ∷ []) ∷ [])
empty_value_lost_example = empty_value_lost fresh (1 ∷ []) (2 ∷ []) [] refl

spans_kept_example :
    (on_events fresh (url (1 ∷ []) ∷ url (2 ∷ []) ∷ []) ≡ on_events fresh (url (2 ∷ []) ∷ []))
    × (on_events fresh (header_value (1 ∷ []) ∷ header_value (2 ∷ []) ∷ [])
        ≡ on_events fresh (header_value (2 ∷ []) ∷ []))
    × (on_events fresh (header_field (1 ∷ []) ∷ header_field (2 ∷ []) ∷ [])
        ≡ on_events fresh (header_field (2 ∷ []) ∷ []))
    × (on_events fresh (body (1 ∷ []) ∷ body (2 ∷ []) ∷ [])
        ≡ on_events fresh (body (1 ∷ 2 ∷ []) ∷ []))
spans_kept_example = spans_kept fresh (1 ∷ []) (2 ∷ []) [] refl
