-- ===== src/Awaiter/Blocks.antt =====
-- include/ant_server/awaiter/socket_awaiter.hpp: the reads into an `IOBuf`. The library's block and
-- buffer are known as far as the reads use them: `acquire_tls_block`, a parameter, takes a block off the
-- thread's own list or makes one, and the buffer calls the function given with the bytes once it has
-- dropped them.
use my_async_lib.Base.{
  ◌≤◌, ℕ, ◌+◌, ◌-◌, ◌≡◌, refl, Bool, true, List, [], ◌∷◌, ◌==◌, if◌then◌else◌, arith, count, ◌++◌,
  dec_le, if_ind, ap, subst, Bool-cases, Option-cases, sym, ◌∙◌, inl, inr, ℤ, pos, leb_ℤ, not,
  Option, none, some, pos_part, leb,
}
use mathlib.Core.Option.{some-injective}
use my_async_lib.Awaiter.{Awaiter, suspend_read}
use my_async_lib.Io.{Requests}

-- `IOBuf::Block`, the fields that a read looks at.
pub record Block : Type 0 where
  pub address : ℕ
  pub bytes : ℕ
  pub size : ℕ
  pub cap : ℕ

-- Bytes that the buffer took over, with the block that they keep alive.
pub record Slice : Type 0 where
  pub block : ℕ
  pub bytes : ℕ
  pub len : ℕ

-- The references that each block counts, the blocks of the thread's own list, those of the reads that
-- wait and the buffer's bytes.
pub record Blocks : Type 0 where
  pub refs : ℕ → ℕ
  pub own : List ℕ
  pub waiting : List ℕ
  pub slices : List Slice

abbrev pub inc_ref : (ℕ → ℕ) → ℕ → ℕ → ℕ
inc_ref refs b a = refs a + (if b == a then 1 else 0)

abbrev pub dec_ref : (ℕ → ℕ) → ℕ → ℕ → ℕ
dec_ref refs b a = refs a - (if b == a then 1 else 0)

abbrev pub left_space : Block → ℕ
left_space b = b.cap - b.size

-- `await_suspend` with a buffer: the block is the one that was acquired.
unfoldable pub suspend_into : Bool → Bool → ℕ → Awaiter → Block → Requests → Awaiter × Requests
unfolding suspend_read
suspend_into token stopped h a b rs =
    suspend_read token stopped h a (b.bytes + b.size) (left_space b) rs

-- `acquire_tls_block`, from the references and the thread's list: the block's address, and both
-- afterwards.
abbrev pub Acquire : Type 0
Acquire = (ℕ → ℕ) → List ℕ → ℕ × (ℕ → ℕ) × List ℕ

-- What it does with references: each one that the thread's list loses is dropped or handed over to
-- the caller, and a block that is made has one reference, of the caller.
abbrev pub HandsOver : Acquire → Type 0
HandsOver acquire_tls_block =
    (refs : ℕ → ℕ) (own : List ℕ)
    → ((a : ℕ) → count a own ≤ refs a)
    → (a : ℕ)
    → let (b, refs', own') = acquire_tls_block refs own in
      refs' a + count a own ≡ refs a + count a own' + (if b == a then 1 else 0)

abbrev pub acquire : Acquire → Blocks → Blocks
acquire acquire_tls_block s =
    let (b, refs, own) = acquire_tls_block s.refs s.own in
    record s { refs = refs; own = own; waiting = b ∷ s.waiting }

abbrev pub remove_one : ℕ → List ℕ → List ℕ
remove_one b [] = []
remove_one b (x ∷ xs) = let rest = remove_one b xs in if b == x then xs else x ∷ rest

-- `await_resume` with a buffer, of the read with block `b`; `res` is the result of the read.
unfoldable pub resume_read : Blocks → Block → ℤ → Blocks
resume_read s b res =
    let waiting = remove_one b.address s.waiting in
    if not (leb_ℤ res (pos 0))
    then record s {
      refs = dec_ref (inc_ref s.refs b.address) b.address;
      waiting = waiting;
      slices =
          s.slices
          ++ (record { block = b.address; bytes = b.bytes + b.size; len = pos_part res } ∷ []);
    }
    else record s { refs = dec_ref s.refs b.address; waiting = waiting }

-- The buffer drops its oldest bytes, and calls the function that came with them.
abbrev pub drop_first : List Slice → (ℕ → ℕ) → List Slice × (ℕ → ℕ)
drop_first [] refs = ([], refs)
drop_first (v ∷ vs) refs = (vs, dec_ref refs v.block)

abbrev pub consume : Blocks → Blocks
consume s =
    let (slices, refs) = drop_first s.slices s.refs in record s { slices = slices; refs = refs }

pub data ReadEvent : Type 0 where
  suspends : ReadEvent
  resumes : Block → ℤ → ReadEvent
  consumes : ReadEvent

abbrev pub then_events : Option Blocks → (Blocks → Option Blocks) → Option Blocks
then_events none f = none
then_events (some s) f = f s

module _ (acquire_tls_block : Acquire) where
  -- The reads that end are among those that wait.
  unfoldable pub event : Blocks → ReadEvent → Option Blocks
  unfolding resume_read
  event s suspends = some (acquire acquire_tls_block s)
  event s (resumes b res) =
      if leb 1 (count b.address s.waiting) then some (resume_read s b res) else none
  event s consumes = some (consume s)

  unfoldable pub events : List ReadEvent → Blocks → Option Blocks
  unfolding event
  events [] s = some s
  events (e ∷ es) s = then_events (event s e) (λ s'. events es s')

abbrev pub slices_of : ℕ → List Slice → ℕ
slices_of a [] = 0
slices_of a (v ∷ vs) = (if v.block == a then 1 else 0) + slices_of a vs

-- Each block counts the references of the thread's list, of the reads that wait for it, of the bytes in
-- it and of others.
unfoldable pub Accounted : (ℕ → ℕ) → Blocks → Type 0
Accounted others s =
    (a : ℕ) → s.refs a ≡ others a + count a s.own + count a s.waiting + slices_of a s.slices

remove_one-count :
    (b a : ℕ) (xs : List ℕ)
    → leb 1 (count b xs) ≡ true
    → count a (remove_one b xs) + (if b == a then 1 else 0) ≡ count a xs
remove_one-count b a [] h = ground arith
remove_one-count b a (x ∷ xs) h = elim (dec_le 1 (count b xs)) [
  | yes le ↦ ground (arith, remove_one-count b a xs (ground arith))
  | no gt ↦ ground arith
]

slices_of-append :
    (a : ℕ) (vs : List Slice) (v : Slice)
    → slices_of a (vs ++ (v ∷ [])) ≡ slices_of a vs + (if v.block == a then 1 else 0)
slices_of-append a [] v = omega arith
slices_of-append a (w ∷ vs) v = omega (arith, slices_of-append a vs v)

resume_read-Accounted :
    (others : ℕ → ℕ) (s : Blocks) (b : Block) (res : ℤ)
    → leb 1 (count b.address s.waiting) ≡ true
    → Accounted others s
    → Accounted others (resume_read s b res)
unfolding Accounted resume_read
resume_read-Accounted others s b res some_read h a =
    if_ind
      (λ (r : Blocks).
        r.refs a ≡ others a + count a r.own + count a r.waiting + slices_of a r.slices)
      (not (leb_ℤ res (pos 0)))
      (λ _. omega (
        arith,
        h a,
        remove_one-count b.address a s.waiting some_read,
        slices_of-append a s.slices _,
      ))
      (λ _. omega (arith, h a, remove_one-count b.address a s.waiting some_read))

acquire-Accounted :
    (lib : Acquire) (others : ℕ → ℕ) (s : Blocks)
    → HandsOver lib
    → Accounted others s
    → Accounted others (acquire lib s)
unfolding Accounted
acquire-Accounted lib others s gives h a =
    ground (arith, h a, gives s.refs s.own (λ b. omega (arith, h b)) a)

consume-Accounted :
    (others : ℕ → ℕ) (s : Blocks) (slices : List Slice)
    → s.slices ≡ slices
    → Accounted others s
    → Accounted others
        (let (rest, refs) = drop_first slices s.refs in record s { slices = rest; refs = refs })
unfolding Accounted
consume-Accounted others s [] e h a = omega (arith, h a, ap (slices_of a) e)
consume-Accounted others s (v ∷ vs) e h a = omega (arith, h a, ap (slices_of a) e)

module _ (lib : Acquire) (others : ℕ → ℕ) (gives : HandsOver lib) where
  event-Accounted :
      (e : ReadEvent) (s s' : Blocks)
      → event lib s e ≡ some s'
      → Accounted others s
      → Accounted others s'
  unfolding event
  event-Accounted suspends s s' e h =
      subst (Accounted others) (some-injective _ _ e) (acquire-Accounted lib others s gives h)
  event-Accounted (resumes b res) s s' e h = elim (Bool-cases (leb 1 (count b.address s.waiting))) [
    | inl t ↦
        subst (Accounted others) (some-injective _ _ (cc (e, t)))
          (resume_read-Accounted others s b res t h)
    | inr f ↦ absurd (ground (arith, e, f))
  ]
  event-Accounted consumes s s' e h =
      subst (Accounted others) (some-injective _ _ e) (consume-Accounted others s s.slices refl h)

  -- Reads into a buffer that start, end (with data, without, or with an error) and are consumed, in
  -- any order in which only waiting reads end, for any `acquire_tls_block` by which each reference
  -- that the thread's list loses is dropped or handed over, and a block that is made has one
  -- reference: if each block counts one reference for each place in the thread's list, each read
  -- that waits for it and each range of bytes in it, beside those of others, then it does so
  -- afterwards.
  pub events-Accounted :
      (es : List ReadEvent) (s s' : Blocks)
      → events lib es s ≡ some s'
      → Accounted others s
      → Accounted others s'
  unfolding events
  events-Accounted [] s s' e h = subst (Accounted others) (some-injective _ _ e) h
  events-Accounted (x ∷ es) s s' e h = elim (Option-cases (event lib s x)) [
    | inl n ↦ absurd (ground (arith, e, n))
    | inr (m, y) ↦
        events-Accounted es m s' (sym (ap (λ o. then_events o (λ r. events lib es r)) y) ∙ e)
          (event-Accounted x s m y h)
  ]
