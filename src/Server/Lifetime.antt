-- ===== src/Server/Lifetime.antt =====
-- The construction of a `Server` (server.hpp), its connections and its destruction.
use my_async_lib.Base.{
  if_ind, ℤ, ◌↔◌, ℕ, ◌≡◌, ◌≢◌, refl, Bool, true, false, ◌&&◌, List, [], ◌∷◌, if◌then◌else◌, Option,
  none, some, pos, ltb_ℤ, ◌⊎◌, inl, inr, arith, Option-cases,
}
use my_async_lib.Awaiter.Keepers.{effective_keeper}
use my_async_lib.Context.{Context, get_scheduler}
use my_async_lib.Executor.Pool
use my_async_lib.Executor.Pool.{Pool, new_pool}
use my_async_lib.Io.{start, submit_multishot_accept}
use my_async_lib.Io.Accepting.{accept_request}
use my_async_lib.Task.{ThreadLocals}
use my_async_lib.Timer.Thread
use my_async_lib.Timer.Thread.{Thread, new_thread}
use my_async_lib.Server.Setup.{
  Construction, exited, context_keeper, Os, Address, Settings, Server, constructed, needs_defaults,
  serve, construct, socket_failed, bind_failed, listen_failed, connection_keeper, stop_timer,
  stop_executor, destroy,
}

-- The socket that the call with the family, the type and the protocol of the settings gives.
abbrev pub made_socket : Os → Settings → ℤ
made_socket os c = os.socket c.domain c.service c.protocol

-- The address of the settings in network byte order.
abbrev pub network_address : Os → Settings → Address
network_address os c = record {
  sin_family = c.domain;
  sin_port = os.htons c.port;
  s_addr = os.htonl c.interface;
}

-- The three calls succeed.
abbrev pub Succeeds : Os → Settings → Type 0
Succeeds os c =
    (ltb_ℤ (made_socket os c) (pos 0) ≡ false)
    × (ltb_ℤ (os.bind (made_socket os c) (network_address os c)) (pos 0) ≡ false)
    × (ltb_ℤ (os.listen (made_socket os c) c.backlog) (pos 0) ≡ false)

abbrev pub runs : Option Thread → Bool
runs none = false
runs (some t) = t.running && t.joinable

abbrev pub workers_of : Option Pool → List ℕ
workers_of none = []
workers_of (some p) = p.threads

abbrev pub Joined : Option Thread → Type 0
Joined none = Unit
Joined (some t) = (t.running ≡ false) × (t.joinable ≡ false)

abbrev pub Stopped : Option Pool → Type 0
Stopped none = Unit
Stopped (some p) = (p.executor.running ≡ false) × (p.threads ≡ [])

-- Neither the context nor the thread has a scheduler.
abbrev pub NoScheduler : ThreadLocals → Context → Type 0
NoScheduler g ctx = (get_scheduler ctx ≡ 0) × (g.scheduler ≡ 0)

-- What a server is for its clients: the socket listens, a request waits for connections, and there
-- are an executor and a timer if no scheduler is in sight.
pub record IsServing (g : ThreadLocals) (ctx : Context) (s : Server) : Type 0 where
  pub listening : (ltb_ℤ s.server_socket (pos 0) ≡ false) × (s.closed ≡ false)
  pub accepting : s.context.requests ≡ accept_request s.acceptor ∷ ctx.requests
  pub own_timer : (runs s.default_timer_keeper ≡ true) ↔ NoScheduler g ctx
  pub own_worker : (workers_of s.default_executor ≡ 0 ∷ []) ↔ NoScheduler g ctx

needs_defaults-NoScheduler :
    (g : ThreadLocals) (ctx : Context) → (needs_defaults g ctx ≡ true) ↔ NoScheduler g ctx
needs_defaults-NoScheduler g ctx = (λ e. ground (arith, e), λ h. ground (arith, h))

own_timer_lem :
    (needed : Bool)
    → (runs (if needed then some (Thread.start new_thread) else none) ≡ true) ↔ (needed ≡ true)
unfolding Thread.start
own_timer_lem true = (λ e. refl, λ e. refl)
own_timer_lem false = (λ e. e, λ e. e)

own_worker_lem :
    (needed : Bool)
    → (workers_of (if needed then some (Pool.start (new_pool 1)) else none) ≡ 0 ∷ [])
      ↔ (needed ≡ true)
unfolding Pool.start new_pool
own_worker_lem true = (λ e. refl, λ e. refl)
own_worker_lem false = (λ e. absurd (cc e), λ e. absurd (cc e))

iff_trans : {A B C : Type 0} → A ↔ B → B ↔ C → A ↔ C
iff_trans p q = (λ a. q.0 (p.0 a), λ c. p.1 (q.1 c))

-- If the calls of the system succeed, the constructor returns a server that serves.
serve-IsServing :
    (os : Os) (g : ThreadLocals) (ctx : Context) (c : Settings) (acceptor : ℕ)
    → Succeeds os c
    → IsServing g ctx (serve os g ctx c acceptor)
unfolding serve start submit_multishot_accept
serve-IsServing os g ctx c acceptor ok = record {
  listening = (ok.0, refl);
  accepting = refl;
  own_timer = iff_trans (own_timer_lem (needs_defaults g ctx)) (needs_defaults-NoScheduler g ctx);
  own_worker = iff_trans (own_worker_lem (needs_defaults g ctx)) (needs_defaults-NoScheduler g ctx);
}

serve_socket :
    (os : Os) (g : ThreadLocals) (ctx : Context) (c : Settings) (acceptor : ℕ)
    → (serve os g ctx c acceptor).server_socket ≡ made_socket os c
unfolding serve
serve_socket os g ctx c acceptor = refl

serve_address :
    (os : Os) (g : ThreadLocals) (ctx : Context) (c : Settings) (acceptor : ℕ)
    → (serve os g ctx c acceptor).address ≡ network_address os c
unfolding serve
serve_address os g ctx c acceptor = refl

-- What the constructor comes to, with the call of the system that decided.
abbrev pub Built : Os → ThreadLocals → Context → Settings → Construction → Type 0
Built os g ctx c (exited socket_failed) = ltb_ℤ (made_socket os c) (pos 0) ≡ true
Built os g ctx c (exited bind_failed) =
    (ltb_ℤ (made_socket os c) (pos 0) ≡ false)
    × (ltb_ℤ (os.bind (made_socket os c) (network_address os c)) (pos 0) ≡ true)
Built os g ctx c (exited listen_failed) =
    (ltb_ℤ (made_socket os c) (pos 0) ≡ false)
    × (ltb_ℤ (os.bind (made_socket os c) (network_address os c)) (pos 0) ≡ false)
    × (ltb_ℤ (os.listen (made_socket os c) c.backlog) (pos 0) ≡ true)
Built os g ctx c (constructed s) =
    Succeeds os c
    × (s.server_socket ≡ made_socket os c)
    × (s.address ≡ network_address os c)
    × IsServing g ctx s

-- The constructor of a server comes to one of four ends, each with the call of the system that
-- decided: it exits as `socket` (of family, type and protocol), `bind` (to the family, the port and
-- the interface in network byte order) or `listen` fails, in this order, or all three succeed and
-- the server has that socket and address and listens, has one accept request outstanding, and has a
-- running timer, and one worker, of its own exactly if neither the context nor the thread has a
-- scheduler.
pub construct-Built :
    (os : Os) (g : ThreadLocals) (ctx : Context) (c : Settings) (acceptor : ℕ)
    → Built os g ctx c (construct os g ctx c acceptor)
unfolding construct
construct-Built os g ctx c acceptor =
    if_ind (Built os g ctx c) (ltb_ℤ (made_socket os c) (pos 0)) (λ e. e)
      (λ made.
        if_ind (Built os g ctx c)
          (ltb_ℤ (os.bind (made_socket os c) (network_address os c)) (pos 0)) (λ e. (made, e))
          (λ bound.
            if_ind (Built os g ctx c) (ltb_ℤ (os.listen (made_socket os c) c.backlog) (pos 0))
              (λ e. (made, bound, e))
              (λ listens. (
                (made, bound, listens),
                serve_socket os g ctx c acceptor,
                serve_address os g ctx c acceptor,
                serve-IsServing os g ctx c acceptor (made, bound, listens),
              ))))

-- The server's own threads are joined and its own executor does not run.
pub record IsQuiet (s : Server) : Type 0 where
  pub timer : Joined s.default_timer_keeper
  pub executor : Stopped s.default_executor
  pub socket : s.closed ≡ true

stop_timer-Joined :
    (needed : Bool) → Joined (stop_timer (if needed then some (Thread.start new_thread) else none))
unfolding Thread.start Thread.stop
stop_timer-Joined true = (refl, refl)
stop_timer-Joined false = tt

stop_executor-Stopped :
    (needed : Bool)
    → Stopped (stop_executor (if needed then some (Pool.start (new_pool 1)) else none))
unfolding Pool.start Pool.stop new_pool
stop_executor-Stopped true = (refl, refl)
stop_executor-Stopped false = tt

-- If the calls of the system succeed, then after construction and destruction the server's own
-- timer and worker are stopped and joined and its socket is closed, but its accept request is still
-- outstanding with the acceptor's address.
pub destroy-IsQuiet :
    (os : Os) (g : ThreadLocals) (ctx : Context) (c : Settings) (acceptor : ℕ)
    → Succeeds os c
    → (s : Server) × (construct os g ctx c acceptor ≡ constructed s)
      × IsQuiet (destroy s)
      × ((destroy s).context.requests ≡ accept_request s.acceptor ∷ ctx.requests)
unfolding construct destroy serve start submit_multishot_accept
destroy-IsQuiet os g ctx c acceptor ok = rw ok.0 (
    rw ok.1 (
      rw ok.2 (
        _,
        refl,
        record {
          timer = stop_timer-Joined (needs_defaults g ctx);
          executor = stop_executor-Stopped (needs_defaults g ctx);
          socket = ground (arith, ok.0);
        },
        refl,
      )))

-- If at construction the thread had no scheduler, or the context has one, or the accepting thread
-- has one, then the callback of an accepted connection finds a timer keeper and does not throw.
pub connection_keeper-some :
    (timer_of : ℕ → ℕ) (own : ℕ) (os : Os) (g later : ThreadLocals) (ctx : Context) (c : Settings)
    (acceptor : ℕ)
    → (g.scheduler ≡ 0) ⊎ (get_scheduler ctx ≢ 0) ⊎ (later.scheduler ≢ 0)
    → (keeper : ℕ) × (connection_keeper timer_of own later (serve os g ctx c acceptor)
        ≡ some keeper)
unfolding connection_keeper serve context_keeper effective_keeper
connection_keeper-some timer_of own os g later ctx c acceptor h =
    elim (Option-cases (connection_keeper timer_of own later (serve os g ctx c acceptor))) [
      | inl e ↦ absurd (ground (arith, e, h))
      | inr found ↦ found
    ]
