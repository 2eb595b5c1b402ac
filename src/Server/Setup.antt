-- ===== src/Server/Setup.antt =====
-- `Server` of include/ant_server/server.hpp: its constructor with the exits on errors, the choice of a
-- timer for each connection, and its destructor. The calls of the system are parameters.
use my_async_lib.Base.{
  not, ℕ, Bool, true, false, ◌&&◌, [], ◌==◌, if◌then◌else◌, Option, none, some, ℤ, pos, ltb_ℤ,
  pos_part, leb_ℤ,
}
use my_async_lib.Awaiter.Keepers.{effective_keeper}
use my_async_lib.Context.{Context, get_scheduler}
use my_async_lib.Executor.Pool
use my_async_lib.Executor.Pool.{Pool, new_pool}
use my_async_lib.Io.{Acceptor, start}
use my_async_lib.Task.{ThreadLocals}
use my_async_lib.Timer.Thread
use my_async_lib.Timer.Thread.{Thread, new_thread}

-- `sockaddr_in`
pub record Address : Type 0 where
  pub sin_family : ℕ
  pub sin_port : ℕ
  pub s_addr : ℕ

pub record Os : Type 0 where
  pub htons : ℕ → ℕ
  pub htonl : ℕ → ℕ
  pub socket : ℕ → ℕ → ℕ → ℤ
  pub bind : ℤ → Address → ℤ
  pub listen : ℤ → ℕ → ℤ

-- The arguments of the constructor beside the context.
pub record Settings : Type 0 where
  pub domain : ℕ
  pub port : ℕ
  pub service : ℕ
  pub protocol : ℕ
  pub backlog : ℕ
  pub interface : ℕ

-- `closed` says whether the listening socket was closed.
pub record Server : Type 0 where
  pub settings : Settings
  pub server_socket : ℤ
  pub address : Address
  pub context : Context
  pub acceptor : Acceptor
  pub default_executor : Option Pool
  pub default_timer_keeper : Option Thread
  pub closed : Bool

pub data Failure : Type 0 where
  socket_failed bind_failed listen_failed : Failure

-- `exited` is `exit(EXIT_FAILURE)`.
pub data Construction : Type 0 where
  exited : Failure → Construction
  constructed : Server → Construction

abbrev pub address_of : Os → Settings → Address
address_of os c = record {
  sin_family = c.domain;
  sin_port = os.htons c.port;
  s_addr = os.htonl c.interface;
}

abbrev pub socket_of : Os → Settings → ℤ
socket_of os c = os.socket c.domain c.service c.protocol

abbrev pub needs_defaults : ThreadLocals → Context → Bool
needs_defaults g ctx = get_scheduler ctx == 0 && g.scheduler == 0

-- What follows the calls; the last argument is the address of the acceptor.
unfoldable pub serve : Os → ThreadLocals → Context → Settings → ℕ → Server
serve os g ctx c acceptor_address =
    let acceptor = start (record {
      server_socket = pos_part (socket_of os c);
      address = acceptor_address;
      accepted = [];
      requests = ctx.requests;
    }) in
    record {
      settings = c;
      server_socket = socket_of os c;
      address = address_of os c;
      context = record ctx { requests = acceptor.requests };
      acceptor = acceptor;
      default_executor = if needs_defaults g ctx then some (Pool.start (new_pool 1)) else none;
      default_timer_keeper = if needs_defaults g ctx then some (Thread.start new_thread) else none;
      closed = false;
    }

unfoldable pub construct : Os → ThreadLocals → Context → Settings → ℕ → Construction
construct os g ctx c acceptor_address =
    if ltb_ℤ (socket_of os c) (pos 0)
    then exited socket_failed
    else if ltb_ℤ (os.bind (socket_of os c) (address_of os c)) (pos 0)
    then exited bind_failed
    else if ltb_ℤ (os.listen (socket_of os c) c.backlog) (pos 0)
    then exited listen_failed
    else constructed (serve os g ctx c acceptor_address)

-- The context's scheduler, or that of the thread
unfoldable pub context_keeper : (ℕ → ℕ) → ThreadLocals → Context → Option ℕ
unfolding effective_keeper
context_keeper timer_of g c =
    if not (get_scheduler c == 0)
    then some (timer_of (get_scheduler c))
    else effective_keeper timer_of g 0

-- The keeper of a connection's timeout; `own` is the address of the server's own one, `none` is the
-- exception.
abbrev pub keeper_or : ℕ → Option Thread → Option ℕ → Option ℕ
keeper_or own (some t) other = some own
keeper_or own none other = other

unfoldable pub connection_keeper : (ℕ → ℕ) → ℕ → ThreadLocals → Server → Option ℕ
connection_keeper timer_of own g s =
    keeper_or own s.default_timer_keeper (context_keeper timer_of g s.context)

abbrev pub stop_timer : Option Thread → Option Thread
stop_timer none = none
stop_timer (some t) = some (Thread.stop t)

abbrev pub stop_executor : Option Pool → Option Pool
stop_executor none = none
stop_executor (some p) = some (Pool.stop p)

-- `~Server`
unfoldable pub destroy : Server → Server
destroy s = record s {
  closed = if leb_ℤ (pos 0) s.server_socket then true else s.closed;
  default_timer_keeper = stop_timer s.default_timer_keeper;
  default_executor = stop_executor s.default_executor;
}
