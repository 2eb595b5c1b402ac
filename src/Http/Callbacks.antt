-- ===== src/Http/Callbacks.antt =====
-- What the callbacks make of the parts of a message.
use mathlib.Core.Option.{Option, none, some}
use my_async_lib.Base.{
  ap₂, arith, Bool-cases, if◌then◌else◌, inl, inr, append_assoc, ==_of_eq, sym, ◌≡◌, refl, ◌∙◌, ap,
  true, false, List, [], ◌∷◌, ◌++◌,
}
use my_async_lib.Http.{
  Bytes, Event, url, header_field, header_value, headers_complete, body, ParserContext, is_empty,
  on_event, on_events, on_header_field, on_headers_complete, store_header, assign, same_bytes,
}

-- The events of a header section whose fields and values come in one piece each.
abbrev pub header_events : List (Bytes × Bytes) → List Event
header_events [] = headers_complete ∷ []
header_events ((f, v) ∷ hs) = header_field f ∷ header_value v ∷ header_events hs

abbrev pub Filled : List (Bytes × Bytes) → Type 0
Filled [] = Unit {0}
Filled ((f, v) ∷ hs) = (is_empty f ≡ false) × (is_empty v ≡ false) × Filled hs

-- A field stores the header before it, if that one has a value.
on_header_field-empty :
    (c : ParserContext) (g : Bytes)
    → is_empty c.current_value ≡ true
    → on_header_field c g ≡ record c { current_field = g }
unfolding on_header_field
on_header_field-empty c g e = rw e

on_header_field-filled :
    (c : ParserContext) (g : Bytes)
    → is_empty c.current_value ≡ false
    → on_header_field c g ≡ record (store_header c) { current_field = g }
unfolding on_header_field
on_header_field-filled c g e = rw e

on_headers_complete-filled :
    (c : ParserContext) → is_empty c.current_field ≡ false → on_headers_complete c ≡ store_header c
unfolding on_headers_complete
on_headers_complete-filled c e = rw e

on_headers_complete-empty :
    (c : ParserContext) → is_empty c.current_field ≡ true → on_headers_complete c ≡ c
unfolding on_headers_complete
on_headers_complete-empty c e = rw e

-- The value of a field in the map.
abbrev pub lookup : Bytes → List (Bytes × Bytes) → Option Bytes
lookup f [] = none
lookup f ((g, w) ∷ hs) = if same_bytes g f then some w else lookup f hs

-- The value of the last header with the field, or else what was there.
abbrev pub last_value : Bytes → Option Bytes → List (Bytes × Bytes) → Option Bytes
last_value f before [] = before
last_value f before ((g, w) ∷ hs) = last_value f (if same_bytes g f then some w else before) hs

same_bytes_lem : (xs ys : Bytes) → same_bytes xs ys ≡ true → xs ≡ ys
unfolding same_bytes
same_bytes_lem [] [] e = refl
same_bytes_lem [] (y ∷ ys) e = ground (arith, e)
same_bytes_lem (x ∷ xs) [] e = ground (arith, e)
same_bytes_lem (x ∷ xs) (y ∷ ys) e =
    ap₂ (λ z zs. z ∷ zs) (ground (arith, e)) (same_bytes_lem xs ys (ground (arith, e)))

same_bytes_refl : (xs : Bytes) → same_bytes xs xs ≡ true
unfolding same_bytes
same_bytes_refl [] = refl
same_bytes_refl (x ∷ xs) = rw (==_of_eq x x refl) (same_bytes_refl xs)

-- Two fields that differ are not both equal to a third.
not_both : (f g h : Bytes) → same_bytes h g ≡ false → same_bytes g f ≡ true → same_bytes h f ≡ false
not_both f g h n e = elim (Bool-cases (same_bytes h f)) [
  | inl t ↦
      let hg : h ≡ g = same_bytes_lem h f t ∙ sym (same_bytes_lem g f e) in
      absurd (ground (arith, n, ap (λ x. same_bytes x g) hg, same_bytes_refl g))
  | inr no_match ↦ no_match
]

lookup-assign :
    (f g v : Bytes) (hs : List (Bytes × Bytes))
    → lookup f (assign g v hs) ≡ (if same_bytes g f then some v else lookup f hs)
unfolding assign
lookup-assign f g v [] = refl
lookup-assign f g v ((h, w) ∷ hs) = elim (Bool-cases (same_bytes h g)) [
  | inl t ↦ ground (arith, t, ap (λ x. same_bytes x f) (same_bytes_lem h g t))
  | inr n ↦ elim (Bool-cases (same_bytes g f)) [
    | inl e ↦ ground (arith, n, e, not_both f g h n e, lookup-assign f g v hs)
    | inr k ↦ ground (arith, n, k, lookup-assign f g v hs)
  ]
]

-- A header that is pending is stored by the next field, or by the end of the section.
pending_headers :
    (f : Bytes) (c : ParserContext) (hs : List (Bytes × Bytes))
    → is_empty c.current_field ≡ false
    → is_empty c.current_value ≡ false
    → Filled hs
    → lookup f (on_events c (header_events hs)).req.headers
      ≡ last_value f
          (if same_bytes c.current_field f then some c.current_value else lookup f c.req.headers)
          hs
unfolding on_events on_event store_header
pending_headers f c [] fe v h =
    ap (λ d. lookup f d.req.headers) (on_headers_complete-filled c fe)
    ∙ lookup-assign f c.current_field c.current_value c.req.headers
pending_headers f c ((g, w) ∷ hs) fe v h =
    ap (λ d. lookup f (on_events (record d { current_value = w }) (header_events hs)).req.headers)
      (on_header_field-filled c g v)
    ∙ pending_headers f (record (store_header c) { current_field = g; current_value = w }) hs h.0
        h.1 h.2
    ∙ ap (λ o. last_value f (if same_bytes g f then some w else o) hs)
        (lookup-assign f c.current_field c.current_value c.req.headers)

-- From a context without a pending header, after the callbacks of a header section whose fields and
-- values are not empty and come in one piece each, the map of headers has for every field the value
-- of the last header of the section with that field, and for a field that does not come in the
-- section the value that it had before, if any.
pub header_events-stored :
    (f : Bytes) (c : ParserContext) (hs : List (Bytes × Bytes))
    → is_empty c.current_field ≡ true
    → is_empty c.current_value ≡ true
    → Filled hs
    → lookup f (on_events c (header_events hs)).req.headers
      ≡ last_value f (lookup f c.req.headers) hs
unfolding on_events on_event
header_events-stored f c [] fe v h =
    ap (λ d. lookup f d.req.headers) (on_headers_complete-empty c fe)
header_events-stored f c ((g, w) ∷ hs) fe v h =
    ap (λ d. lookup f (on_events (record d { current_value = w }) (header_events hs)).req.headers)
      (on_header_field-empty c g v)
    ∙ pending_headers f _ hs h.0 h.1 h.2

-- With no pending value, a header with an empty value that another header follows leaves no trace:
-- the callbacks end as if it had not been there, whatever comes next.
pub empty_value_lost :
    (c : ParserContext) (f g : Bytes) (es : List Event)
    → c.current_value ≡ []
    → on_events c (header_field f ∷ header_value [] ∷ header_field g ∷ es)
      ≡ on_events c (header_field g ∷ es)
unfolding on_events on_event
empty_value_lost c f g es v =
    ap (λ d. on_events d es)
      (on_header_field-empty (record (on_header_field c f) { current_value = [] }) g refl
        ∙ ap {A = ParserContext} (λ d. record d { current_field = g; current_value = [] })
            (on_header_field-empty c f (ap is_empty v))
        ∙ ap {A = Bytes} (λ v'. record c { current_field = g; current_value = v' }) (sym v)
        ∙ sym (on_header_field-empty c g (ap is_empty v)))

-- Of a URL or a value, and with no pending value of a field, that come in two spans only the second
-- span is kept, whatever comes next; the spans of a body are put together.
pub spans_kept :
    (c : ParserContext) (a b : Bytes) (es : List Event)
    → is_empty c.current_value ≡ true
    → (on_events c (url a ∷ url b ∷ es) ≡ on_events c (url b ∷ es))
      × (on_events c (header_value a ∷ header_value b ∷ es) ≡ on_events c (header_value b ∷ es))
      × (on_events c (header_field a ∷ header_field b ∷ es) ≡ on_events c (header_field b ∷ es))
      × (on_events c (body a ∷ body b ∷ es) ≡ on_events c (body (a ++ b) ∷ es))
unfolding on_events on_event
spans_kept c a b es v = (
  refl,
  refl,
  ap (λ d. on_events d es)
      (ap (λ d. on_header_field d b) (on_header_field-empty c a v)
        ∙ on_header_field-empty (record c { current_field = a }) b v
        ∙ sym (on_header_field-empty c b v)),
  ap (λ x. on_events (record c { req = record c.req { body = x } }) es)
      (append_assoc c.req.body a b),
)
