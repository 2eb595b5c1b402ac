-- ===== src/Context.antt =====
-- include/ant_server/context/context.hpp: the state of a `Context` beside its ring: its services, the
-- links to scheduler and executor, `Start` and `Stop`. A service is known by its address, a type by its
-- index; the address of a new service is a parameter.
pub mod Services
use my_async_lib.Base.{
  ℕ, Bool, true, false, List, [], ◌∷◌, ◌==◌, if◌then◌else◌, Option, none, some, ℤ,
}
use my_async_lib.Constants.{default_uring_queue_size}
use my_async_lib.Io.{Requests, Cqe, wakeup, io_loop}

pub record Context : Type 0 where
  pub entries : ℕ
  pub requests : Requests
  pub running : Bool
  pub services : List (ℕ × ℕ)
  pub scheduler : ℕ
  pub executor : ℕ

unfoldable pub new_context : ℕ → ℕ → ℕ → Context
new_context entries scheduler executor = record {
  entries = entries;
  requests = [];
  running = false;
  services = [];
  scheduler = scheduler;
  executor = executor;
}

abbrev pub default_context : Context
default_context = new_context default_uring_queue_size 0 0

abbrev pub set_executor : Context → ℕ → Context
set_executor c executor = record c { executor = executor }

abbrev pub get_executor : Context → ℕ
get_executor c = c.executor

abbrev pub set_scheduler : Context → ℕ → Context
set_scheduler c scheduler = record c { scheduler = scheduler }

abbrev pub get_scheduler : Context → ℕ
get_scheduler c = c.scheduler

abbrev pub find : List (ℕ × ℕ) → ℕ → Option ℕ
find [] id = none
find ((i, service) ∷ services) id = if i == id then some service else find services id

abbrev pub found_or_new : Context → ℕ → ℕ → Option ℕ → Context × ℕ
found_or_new c id fresh (some service) = (c, service)
found_or_new c id fresh none = (record c { services = (id, fresh) ∷ c.services }, fresh)

unfoldable pub use_service : Context → ℕ → ℕ → Context × ℕ
use_service c id fresh = found_or_new c id fresh (find c.services id)

-- `free` says whether the ring has an entry for the wake-up.
unfoldable pub stop : Bool → Context → Context
unfolding wakeup
stop free c = record c { running = false; requests = wakeup free c.requests }

-- `Start`, for the waits of the list.
unfoldable pub start :
    (ℕ → ℤ → ℕ → Context → Context) → ℤ → List (ℤ × List Cqe) → Context → Context × Bool
start complete eintr waits c =
    io_loop complete (λ (d : Context). d.running) eintr waits (record c { running = true })
