-- ===== src/Server/Framing.antt =====
-- A reader of responses, which knows the message format of HTTP/1.1 and not how the server writes.
use mathlib.Core.Option.{Option, none, some}
use my_async_lib.Base.{
  ℕ, zero, suc, Bool, true, false, List, [], ◌∷◌, ◌++◌, if◌then◌else◌, length, take, drop, leb, ap,
  ap₂, ◌∙◌, if_ind, arith, take-append_length, length-append, ◌≡◌, refl, append_assoc,
}
use my_async_lib.Base.Text.{
  codes, format_uint, read_uint, read_uint-format_uint, digits-has_no_cr, has_no_cr, read_line,
  read_line-append, strip_prefix,
}
use my_async_lib.Http.{Bytes}
use my_async_lib.Server.Response.{header_str, server_line, type_line, head_end, connection_value}

abbrev pub cons_head : Bytes → Option (List Bytes × Bytes) → Option (List Bytes × Bytes)
cons_head line none = none
cons_head line (some (lines, rest)) = some (line ∷ lines, rest)

abbrev pub head_after :
    Option (Bytes × Bytes) → (Bytes → Option (List Bytes × Bytes)) → Option (List Bytes × Bytes)
head_after none more = none
head_after (some ([], rest)) more = some ([], rest)
head_after (some (c ∷ line, rest)) more = cons_head (c ∷ line) (more rest)

-- Lines up to the empty one, at most a number of them, and what is behind it.
unfoldable pub read_head : ℕ → Bytes → Option (List Bytes × Bytes)
read_head zero s = none
read_head (suc lines) s = head_after (read_line s) (λ rest. read_head lines rest)

abbrev pub found : Option Bytes → Option Bytes → Option Bytes
found none later = later
found (some value) later = some value

abbrev pub header_value : Bytes → List Bytes → Option Bytes
header_value name [] = none
header_value name (line ∷ lines) = found (strip_prefix name line) (header_value name lines)

abbrev pub length_of : Option Bytes → Option ℕ
length_of none = none
length_of (some value) = read_uint value

abbrev pub split_body : Option Bytes → Option ℕ → Bytes → Option (Option Bytes × Bytes × Bytes)
split_body connection none rest = none
split_body connection (some n) rest =
    if leb n (length rest) then some (connection, take n rest, drop n rest) else none

abbrev pub read_body : Option (List Bytes × Bytes) → Option (Option Bytes × Bytes × Bytes)
read_body none = none
read_body (some (lines, rest)) =
    split_body (header_value (codes "Connection: ") lines)
      (length_of (header_value (codes "Content-Length: ") lines)) rest

abbrev pub max_lines : ℕ
max_lines = 100

-- The first response among the bytes: the value of `Connection`, the body and what follows.
unfoldable pub read_response : Bytes → Option (Option Bytes × Bytes × Bytes)
unfolding read_head
read_response s = read_body (read_head max_lines s)

read_head-line :
    (n c : ℕ) (line rest : Bytes)
    → has_no_cr (c ∷ line) ≡ true
    → read_head (suc n) ((c ∷ line) ++ (13 ∷ 10 ∷ rest)) ≡ cons_head (c ∷ line) (read_head n rest)
unfolding read_head
read_head-line n c line rest h =
    ap (λ o. head_after o (λ r. read_head n r)) (read_line-append (c ∷ line) rest h)

format_uint-has_no_cr : (n : ℕ) → has_no_cr (format_uint n) ≡ true
unfolding format_uint
format_uint-has_no_cr n = digits-has_no_cr (suc n) n [] refl

abbrev lines_of : Bytes → Bool → List Bytes
lines_of text keep_alive =
    codes "HTTP/1.1 200 OK"
    ∷ codes "Server: MyAwesomeServer/1.0"
    ∷ (codes "Content-Length: " ++ format_uint (length text))
    ∷ codes "Content-Type: text/plain"
    ∷ (codes "Connection: " ++ connection_value keep_alive)
    ∷ []

rest_of_head :
    (keep_alive : Bool) (text : Bytes)
    → read_head 97 (drop 2 (type_line ++ (connection_value keep_alive ++ (head_end ++ text))))
      ≡ some (
        codes "Content-Type: text/plain"
            ∷ (codes "Connection: " ++ connection_value keep_alive)
            ∷ [],
        text,
      )
unfolding read_head read_line
rest_of_head true text = refl
rest_of_head false text = refl

abbrev tail_of : Bytes → Bool → Bytes
tail_of text keep_alive = type_line ++ (connection_value keep_alive ++ (head_end ++ text))

tail_of-append :
    (text : Bytes) (keep_alive : Bool) (rest : Bytes)
    → tail_of text keep_alive ++ rest ≡ tail_of (text ++ rest) keep_alive
tail_of-append text true rest = refl
tail_of-append text false rest = refl

read_head-header_str :
    (text : Bytes) (keep_alive : Bool) (rest : Bytes)
    → read_head max_lines (header_str text keep_alive ++ rest)
      ≡ some (lines_of text keep_alive, text ++ rest)
unfolding header_str read_head read_line
read_head-header_str text keep_alive rest =
    ap (λ s. read_head max_lines (server_line ++ s))
      (append_assoc (format_uint (length text)) (tail_of text keep_alive) rest
        ∙ ap (λ s. format_uint (length text) ++ s) (tail_of-append text keep_alive rest))
    ∙ ap
        (λ o.
          cons_head (codes "HTTP/1.1 200 OK") (cons_head (codes "Server: MyAwesomeServer/1.0") o))
        (read_head-line 97 67 (codes "ontent-Length: " ++ format_uint (length text)) _
            (format_uint-has_no_cr (length text))
          ∙ ap (cons_head (codes "Content-Length: " ++ format_uint (length text)))
              (rest_of_head keep_alive (text ++ rest)))

drop-append_length : (xs ys : Bytes) → drop (length xs) (xs ++ ys) ≡ ys
drop-append_length [] ys = refl
drop-append_length (x ∷ xs) ys = drop-append_length xs ys

content_length :
    (text : Bytes) (keep_alive : Bool)
    → length_of (header_value (codes "Content-Length: ") (lines_of text keep_alive))
      ≡ some (length text)
content_length text keep_alive = read_uint-format_uint (length text)

-- The two values that HTTP/1.1 defines for a connection that stays and for one that ends.
abbrev pub connection_option : Bool → Bytes
connection_option true = codes "keep-alive"
connection_option false = codes "close"

header_value-connection :
    (text : Bytes) (keep_alive : Bool)
    → header_value (codes "Connection: ") (lines_of text keep_alive)
      ≡ some (connection_option keep_alive)
header_value-connection text true = refl
header_value-connection text false = refl

split_body-append :
    (connection : Option Bytes) (text rest : Bytes)
    → split_body connection (some (length text)) (text ++ rest) ≡ some (connection, text, rest)
split_body-append connection text rest =
    if_ind (λ (r : Option (Option Bytes × Bytes × Bytes)). r ≡ some (connection, text, rest))
      (leb (length text) (length (text ++ rest)))
      (λ _.
        ap₂ (λ xs ys. some (connection, xs, ys)) (take-append_length text rest (length text) refl)
          (drop-append_length text rest))
      (λ short. absurd (ground (arith, short, length-append text rest)))

-- A reader that knows HTTP/1.1 framing alone reads back from the text of a response, for any body
-- and whatever bytes follow it, the value of `Connection` (`keep-alive` if the connection stays,
-- `close` if it ends), exactly the body, and the bytes that follow.
pub read_response-header_str :
    (text : Bytes) (keep_alive : Bool) (rest : Bytes)
    → read_response (header_str text keep_alive ++ rest)
      ≡ some (some (connection_option keep_alive), text, rest)
unfolding read_response
read_response-header_str text keep_alive rest =
    ap read_body (read_head-header_str text keep_alive rest)
    ∙ ap₂ (λ c n. split_body c n (text ++ rest)) (header_value-connection text keep_alive)
        (content_length text keep_alive)
    ∙ split_body-append (some (connection_option keep_alive)) text rest
