-- ===== src/Http.antt =====
-- include/ant_server/http/parser.hpp: `HttpParser`. llhttp is a parameter: what a call of
-- `llhttp_execute` reports through the callbacks is a list of events. A `string_view` is the bytes
-- that it shows, and the hash map of headers is an association list whose order has no meaning.
pub mod Callbacks
pub mod Consumed
use my_async_lib.Base.{
  ℕ, ◌+◌, Bool, true, false, List, [], ◌∷◌, ◌++◌, leb, if◌then◌else◌, length, Option, none, some,
  ◌==◌, ◌&&◌,
}

abbrev pub Bytes : Type 0
Bytes = List ℕ

-- The callbacks that `HttpParser` sets.
pub data Event : Type 0 where
  url : Bytes → Event
  header_field : Bytes → Event
  header_value : Bytes → Event
  headers_complete : Event
  body : Bytes → Event
  message_complete : Event

-- `enum llhttp_errno`, as far as the code tells its values apart
pub data Errno : Type 0 where
  hpe_ok : Errno
  hpe_paused : Errno
  hpe_paused_upgrade : Errno
  hpe_error : Errno

-- `llhttp_t` with its functions. `error_pos` is `llhttp_get_error_pos` as an offset from the start
-- of the block that was given last, `none` if it lies before it.
pub record Llhttp : Type 1 where
  pub State : Type 0
  pub reset : State
  pub execute : State → Bytes → State × Errno × List Event
  pub error_pos : State → Option ℕ
  pub resume : State → State
  pub method_name : State → Bytes
  pub should_keep_alive : State → Bool

pub data ParseStatus : Type 0 where
  parse_success parse_need_more_data parse_error : ParseStatus

pub record ParseResult : Type 0 where
  pub status : ParseStatus
  pub consumed_bytes : ℕ

pub record HttpRequest : Type 0 where
  pub method : Bytes
  pub url : Bytes
  pub version : Bytes
  pub headers : List (Bytes × Bytes)
  pub body : Bytes
  pub keep_alive : Bool
  pub complete : Bool

-- "HTTP/1.1"
abbrev pub http_1_1 : Bytes
http_1_1 = 72 ∷ 84 ∷ 84 ∷ 80 ∷ 47 ∷ 49 ∷ 46 ∷ 49 ∷ []

abbrev pub empty_request : HttpRequest
empty_request = record {
  method = [];
  url = [];
  version = http_1_1;
  headers = [];
  body = [];
  keep_alive = false;
  complete = false;
}

pub record ParserContext : Type 0 where
  pub req : HttpRequest
  pub current_field : Bytes
  pub current_value : Bytes

abbrev pub is_empty : Bytes → Bool
is_empty [] = true
is_empty (b ∷ bs) = false

-- `==` of two strings
unfoldable pub same_bytes : Bytes → Bytes → Bool
same_bytes [] [] = true
same_bytes [] (y ∷ ys) = false
same_bytes (x ∷ xs) [] = false
same_bytes (x ∷ xs) (y ∷ ys) = (x == y) && same_bytes xs ys

-- `headers[field] = value`: the value of an equal field is replaced. The order of the entries has no
-- meaning.
unfoldable pub assign : Bytes → Bytes → List (Bytes × Bytes) → List (Bytes × Bytes)
unfolding same_bytes
assign field value [] = (field, value) ∷ []
assign field value ((g, w) ∷ hs) =
    let rest = assign field value hs in
    if same_bytes g field then (g, value) ∷ hs else (g, w) ∷ rest

-- `headers[current_field] = current_value`, and both are cleared
unfoldable pub store_header : ParserContext → ParserContext
unfolding assign
store_header c = record {
  req = record c.req { headers = assign c.current_field c.current_value c.req.headers };
  current_field = [];
  current_value = [];
}

unfoldable pub on_header_field : ParserContext → Bytes → ParserContext
unfolding store_header
on_header_field c at =
    let c' = if is_empty c.current_value then c else store_header c in
    record c' { current_field = at }

unfoldable pub on_headers_complete : ParserContext → ParserContext
unfolding store_header
on_headers_complete c = if is_empty c.current_field then c else store_header c

unfoldable pub on_event : ParserContext → Event → ParserContext
unfolding on_header_field on_headers_complete
on_event c (url at) = record c { req = record c.req { url = at } }
on_event c (header_field at) = on_header_field c at
on_event c (header_value at) = record c { current_value = at }
on_event c headers_complete = on_headers_complete c
on_event c (body at) = record c { req = record c.req { body = c.req.body ++ at } }
on_event c message_complete = record c { req = record c.req { complete = true } }

unfoldable pub on_events : ParserContext → List Event → ParserContext
on_events c [] = c
on_events c (e ∷ es) = on_events (on_event c e) es

-- Bytes of a block that a pause leaves consumed.
unfoldable pub paused_at : Option ℕ → Bytes → ℕ
paused_at none blk = length blk
paused_at (some pos) blk = if leb pos (length blk) then pos else length blk

module _ (l : Llhttp) where
  open l use {State, reset, execute, error_pos, resume, method_name, should_keep_alive}

  -- `HttpParser`: the callbacks that llhttp runs, and its state.
  pub record HttpParser : Type 0 where
    pub settings : ParserContext → Event → ParserContext
    pub parser : State

  unfoldable pub new_parser : HttpParser
  new_parser = record { settings = on_event; parser = reset }

  -- `HttpParser::reset`
  abbrev pub reset_parser : HttpParser → HttpParser
  reset_parser p = record p { parser = reset }

  -- What the loop over the blocks leaves: the context, and unless llhttp failed also the parser and
  -- the number of bytes consumed.
  pub data Scan : Type 0 where
    failed : ParserContext → Scan
    scanned : State → ParserContext → ℕ → Scan

  -- One block that is not empty, by the error code; `next` is the rest of the loop.
  unfoldable pub scan_block :
      Errno → State → ParserContext → ℕ → Bytes → (State → ParserContext → ℕ → Scan) → Scan
  unfolding paused_at
  scan_block hpe_ok s c total blk next =
      let rest = next s c (total + length blk) in
      if c.req.complete then scanned s c (total + length blk) else rest
  scan_block hpe_paused s c total blk next =
      scanned (resume s) c (total + paused_at (error_pos s) blk)
  scan_block hpe_paused_upgrade s c total blk next =
      scanned (resume s) c (total + paused_at (error_pos s) blk)
  scan_block hpe_error s c total blk next = failed c

  unfoldable pub scan_blocks : List Bytes → State → ParserContext → ℕ → Scan
  unfolding scan_block on_events
  scan_blocks [] s c total = scanned s c total
  scan_blocks ([] ∷ blocks) s c total = scan_blocks blocks s c total
  scan_blocks ((b ∷ bs) ∷ blocks) s c total =
      let (s', err, events) = execute s (b ∷ bs) in
      scan_block err s' (on_events c events) total (b ∷ bs) (scan_blocks blocks)

  unfoldable pub finish : Scan → HttpRequest × ParseResult
  finish (failed c) = (c.req, record { status = parse_error; consumed_bytes = 0 })
  finish (scanned s c total) =
      if c.req.complete
      then (
        record c.req { method = method_name s; keep_alive = should_keep_alive s },
        record { status = parse_success; consumed_bytes = total },
      )
      else (c.req, record { status = parse_need_more_data; consumed_bytes = total })

  -- `parse`, with the request that it fills
  unfoldable pub parse : List Bytes → HttpRequest × ParseResult
  unfolding scan_blocks finish
  parse blocks = finish (
      scan_blocks blocks reset
        (record { req = empty_request; current_field = []; current_value = [] }) 0)

  -- The helper of the same name
  abbrev pub try_parse_http : List Bytes → HttpRequest × ParseResult
  try_parse_http buf = parse buf
