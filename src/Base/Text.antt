-- ===== src/Base/Text.antt =====
-- Text as bytes: literals, decimal numbers, lines.
use Prim.Native.Nat.{ℕ, zero, suc, ◌+◌, ◌-◌, ◌*◌, ◌/◌, ◌%◌, ◌<◌}
use Prim.Native.Char.{code}
use Prim.Native.String.{String}
use mathlib.Core.Bool.{Bool, true, false, ◌||◌, ◌&&◌}
use mathlib.Core.Logic.{◌≢◌}
use mathlib.Core.List.{List, [], ◌∷◌, ◌++◌, cons-ne-nil}
use mathlib.Core.Option.{Option, none, some}
use mathlib.Core.Path.{◌≡◌, refl}
use native.Mathlib.Omega.{arith}
use my_async_lib.Base.Tests.{◌==◌, if◌then◌else◌, ltb}

-- The codes of a literal, which are its bytes when the text is ASCII.
abbrev pub codes : String → List ℕ
codes String.[] = []
codes (String.◌∷◌ c s) = code c ∷ codes s

-- The decimal digits of a number, added in front; each round divides by ten.
unfoldable pub digits : ℕ → ℕ → List ℕ → List ℕ
digits zero n out = out
digits (suc rounds) n out =
    let more = digits rounds (n / 10) ((48 + n % 10) ∷ out) in
    if n / 10 == 0 then (48 + n % 10) ∷ out else more

-- `{}` of `std::format` for a number; there are no more rounds than its value and one more.
unfoldable pub format_uint : ℕ → List ℕ
unfolding digits
format_uint n = digits (suc n) n []

-- A reader of decimal numbers: digits and nothing else.
unfoldable pub scan : List ℕ → ℕ → Option ℕ
scan [] n = some n
scan (c ∷ s) n =
    let rest = scan s (n * 10 + (c - 48)) in if ltb c 48 || ltb 57 c then none else rest

unfoldable pub read_uint : List ℕ → Option ℕ
unfolding scan
read_uint [] = none
read_uint (c ∷ s) = scan (c ∷ s) 0

scan-last : (n : ℕ) (out : List ℕ) → scan ((48 + n % 10) ∷ out) (n / 10) ≡ scan out n
unfolding scan
scan-last n out = ground arith

scan-digits : (rounds n : ℕ) (out : List ℕ) → n < rounds → scan (digits rounds n out) 0 ≡ scan out n
unfolding digits
scan-digits zero n out h = absurd (omega arith)
scan-digits (suc rounds) n out h =
    ground (arith, scan-last n out, scan-digits rounds (n / 10) ((48 + n % 10) ∷ out))

digits-ne-nil : (rounds n : ℕ) (c : ℕ) (out : List ℕ) → digits rounds n (c ∷ out) ≢ []
unfolding digits
digits-ne-nil zero n c out = cons-ne-nil c out
digits-ne-nil (suc rounds) n c out = ground (
  arith,
  cons-ne-nil (48 + n % 10) (c ∷ out),
  digits-ne-nil rounds (n / 10) (48 + n % 10) (c ∷ out),
)

format_uint-ne-nil : (n : ℕ) → format_uint n ≢ []
unfolding format_uint digits
format_uint-ne-nil n =
    ground (arith, cons-ne-nil (48 + n % 10) [], digits-ne-nil n (n / 10) (48 + n % 10) [])

read_uint-scan : (s : List ℕ) → s ≢ [] → read_uint s ≡ scan s 0
unfolding read_uint
read_uint-scan [] h = absurd (h refl)
read_uint-scan (c ∷ s) h = refl

-- Every number is read back from its print.
pub read_uint-format_uint : (n : ℕ) → read_uint (format_uint n) ≡ some n
unfolding read_uint format_uint scan
read_uint-format_uint n =
    rw (read_uint-scan _ (format_uint-ne-nil n)) (scan-digits (suc n) n [] (omega arith))

-- The bytes before the first CR LF and those behind it.
abbrev pub cons_line : ℕ → Option (List ℕ × List ℕ) → Option (List ℕ × List ℕ)
cons_line c none = none
cons_line c (some (line, rest)) = some (c ∷ line, rest)

unfoldable pub read_line : List ℕ → Option (List ℕ × List ℕ)
read_line [] = none
read_line (c ∷ []) = none
read_line (c ∷ d ∷ s) =
    let rest = read_line (d ∷ s) in if c == 13 && d == 10 then some ([], s) else cons_line c rest

abbrev pub has_no_cr : List ℕ → Bool
has_no_cr [] = true
has_no_cr (c ∷ s) = let rest = has_no_cr s in if c == 13 then false else rest

pub digits-has_no_cr :
    (rounds n : ℕ) (out : List ℕ) → has_no_cr out ≡ true → has_no_cr (digits rounds n out) ≡ true
unfolding digits
digits-has_no_cr zero n out h = h
digits-has_no_cr (suc rounds) n out h =
    ground (arith, digits-has_no_cr rounds (n / 10) ((48 + n % 10) ∷ out))

pub has_no_cr-append :
    (s t : List ℕ) → has_no_cr s ≡ true → has_no_cr t ≡ true → has_no_cr (s ++ t) ≡ true
has_no_cr-append [] t hs ht = ht
has_no_cr-append (c ∷ s) t hs ht = ground (arith, has_no_cr-append s t)

-- A line without CR is read whole.
pub read_line-append :
    (line rest : List ℕ)
    → has_no_cr line ≡ true
    → read_line (line ++ (13 ∷ 10 ∷ rest)) ≡ some (line, rest)
unfolding read_line
read_line-append [] rest h = refl
read_line-append (c ∷ []) rest h = ground arith
read_line-append (c ∷ d ∷ line) rest h = ground (arith, read_line-append (d ∷ line) rest)

-- What follows a prefix.
abbrev pub strip_prefix : List ℕ → List ℕ → Option (List ℕ)
strip_prefix [] s = some s
strip_prefix (p ∷ ps) [] = none
strip_prefix (p ∷ ps) (c ∷ s) = let rest = strip_prefix ps s in if p == c then rest else none
