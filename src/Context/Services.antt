-- ===== src/Context/Services.antt =====
-- The services of a `Context` (context.hpp), and a context that was stopped.
use my_async_lib.Base.{
  ℕ, ◌≡◌, refl, ap, Bool, false, List, [], ◌∷◌, some, ℤ, Option-cases, inl, inr, arith,
}
use my_async_lib.Io.{Cqe, io_loop}
use my_async_lib.Context.{Context, find, found_or_new, use_service, stop}

use_service-found :
    (c : Context) (id fresh : ℕ)
    → find (use_service c id fresh).0.services id ≡ some (use_service c id fresh).1
unfolding use_service
use_service-found c id fresh = elim (Option-cases (find c.services id)) [
  | inl new ↦ ground (arith, new)
  | inr (service, old) ↦ ground (arith, old)
]

use_service-kept :
    (c : Context) (id other fresh service : ℕ)
    → find c.services id ≡ some service
    → find (use_service c other fresh).0.services id ≡ some service
unfolding use_service
use_service-kept c id other fresh service e = elim (Option-cases (find c.services other)) [
  | inl new ↦ ground (arith, new)
  | inr (s, old) ↦ ground (arith, old)
]

-- Uses of services, one after another; of each the type and the address that a new one would have.
abbrev pub uses : List (ℕ × ℕ) → Context → Context
uses [] c = c
uses ((id, fresh) ∷ us) c = uses us (use_service c id fresh).0

uses-kept :
    (us : List (ℕ × ℕ)) (c : Context) (id service : ℕ)
    → find c.services id ≡ some service
    → find (uses us c).services id ≡ some service
uses-kept [] c id service e = e
uses-kept ((other, fresh) ∷ us) c id service e =
    uses-kept us (use_service c other fresh).0 id service
      (use_service-kept c id other fresh service e)

use_service-again :
    (d : Context) (id fresh service : ℕ)
    → find d.services id ≡ some service
    → (use_service d id fresh).1 ≡ service
unfolding use_service
use_service-again d id fresh service e = ap (λ o. (found_or_new d id fresh o).1) e

-- A service that was used is found again, whatever services are used in between.
pub use_service-same :
    (us : List (ℕ × ℕ)) (c : Context) (id fresh fresh' : ℕ)
    → (use_service (uses us (use_service c id fresh).0) id fresh').1 ≡ (use_service c id fresh).1
use_service-same us c id fresh fresh' =
    use_service-again (uses us (use_service c id fresh).0) id fresh' _
      (uses-kept us _ id _ (use_service-found c id fresh))

-- A context that is stopped handles no completion.
pub stopped-io_loop :
    (complete : ℕ → ℤ → ℕ → Context → Context) (free : Bool) (eintr : ℤ)
    (waits : List (ℤ × List Cqe)) (c : Context)
    → io_loop complete (λ (d : Context). d.running) eintr waits (stop free c) ≡ (stop free c, false)
unfolding io_loop stop
stopped-io_loop complete free eintr [] c = refl
stopped-io_loop complete free eintr ((ret, es) ∷ waits) c = refl
