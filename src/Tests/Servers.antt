-- ===== src/Tests/Servers.antt =====
-- Servers at concrete inputs.
use my_async_lib.Base.{
  ℕ, none, ◌*◌, ◌/◌, ◌%◌, ◌+◌, ◌≡◌, refl, true, [], ◌∷◌, ◌++◌, arith, some, pos,
}
use my_async_lib.Awaiter.{Awaiter}
use my_async_lib.Awaiter.Blocks.{Block}
use my_async_lib.Awaiter.Canceling.{request_stops}
use my_async_lib.Context.{default_context}
use my_async_lib.Base.Text.{codes}
use my_async_lib.Http.{Llhttp, hpe_ok}
use my_async_lib.Io.Accepting.{accept_request}
use my_async_lib.Server.{IoBuf}
use my_async_lib.Server.Client.{connect, connect-no_cancel}
use my_async_lib.Server.Framing.{read_response, read_response-header_str}
use my_async_lib.Server.Lifetime.{Built, construct-Built, IsQuiet, destroy-IsQuiet}
use my_async_lib.Server.Response.{header_str}
use my_async_lib.Server.Setup.{Os, Settings, Server, constructed, construct, destroy}
use my_async_lib.Task.{new_thread}
use my_async_lib.Timer.{new_keeper}

read_response-header_str_example :
    read_response (header_str (72 ∷ 105 ∷ []) true ++ (72 ∷ 84 ∷ []))
    ≡ some (some (codes "keep-alive"), 72 ∷ 105 ∷ [], 72 ∷ 84 ∷ [])
read_response-header_str_example = read_response-header_str (72 ∷ 105 ∷ []) true (72 ∷ 84 ∷ [])

abbrev linux : Os
linux = record {
  htons = λ port. (port % 256) * 256 + port / 256;
  htonl = λ address. address;
  socket = λ domain service protocol. pos 3;
  bind = λ fd address. pos 0;
  listen = λ fd backlog. pos 0;
}

abbrev settings : Settings
settings = record {
  domain = 2;
  port = 8080;
  service = 1;
  protocol = 0;
  backlog = 128;
  interface = 0;
}

construct-Built_example :
    Built linux new_thread default_context settings
      (construct linux new_thread default_context settings 40)
construct-Built_example = construct-Built linux new_thread default_context settings 40

destroy-IsQuiet_example :
    (s : Server) × (construct linux new_thread default_context settings 40 ≡ constructed s)
    × IsQuiet (destroy s)
    × ((destroy s).context.requests ≡ accept_request s.acceptor ∷ default_context.requests)
destroy-IsQuiet_example =
    destroy-IsQuiet linux new_thread default_context settings 40 (refl, refl, refl)

abbrev never_complete : Llhttp
never_complete = record {
  State = ℕ;
  reset = 0;
  execute = λ s bytes. (s + 1, hpe_ok, []);
  error_pos = λ s. none;
  resume = λ s. s;
  method_name = λ s. [];
  should_keep_alive = λ s. true;
}

abbrev one_block : IoBuf
one_block = record { append = λ buf bytes. bytes ∷ buf; pop_front = λ buf n. [] }

abbrev tls_block : Block
tls_block = record { address = 3; bytes = 1000; size = 0; cap = 8160 }

connect-no_cancel_example :
    let s = connect never_complete one_block (λ bytes. []) new_keeper 0 70 60 61 9 4 tls_block [] in
    (a : Awaiter) × (s.child.waits_for ≡ some a)
    × (s.child.promise.token ≡ true)
    × (request_stops 2 a s.requests ≡ (a, s.requests))
connect-no_cancel_example =
    connect-no_cancel never_complete one_block (λ bytes. []) new_keeper 0 70 60 61 9 4 tls_block []
      2 (omega arith)
