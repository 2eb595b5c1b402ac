-- ===== src/Io.antt =====
-- include/ant_server/context/context.hpp, include/ant_server/context/service.hpp and
-- include/ant_server/handler/acceptor.hpp: the requests that go to io_uring and the completions that
-- come back. liburing is not modelled: `get_sqe` always finds a free entry, and each `Submit` hands
-- the entry just filled over, so the requests are a list, the last one first. Handlers are known by
-- their address, `nullptr` is 0.
pub mod Accepting
pub mod Events
use my_async_lib.Base.{
  ℕ, ◌+◌, Bool, true, false, not, List, [], ◌∷◌, ◌==◌, if◌then◌else◌, length, ℤ, pos, ltb_ℤ, eqb_ℤ,
  leb, take,
}

-- `struct iovec`
pub record Iovec : Type 0 where
  pub iov_base : ℕ
  pub iov_len : ℕ

-- The `io_uring_prep_*` call that fills the entry.
pub data Operation : Type 0 where
  multishot_accept_direct : ℕ → Operation
  recv : ℕ → ℕ → ℕ → Operation
  send : ℕ → ℕ → ℕ → Operation
  writev : ℕ → List Iovec → Operation
  close_direct : ℕ → Operation
  close : ℕ → Operation
  cancel : ℕ → Operation
  nop : Operation

-- `io_uring_sqe`, as far as the code sets it
pub record Sqe : Type 0 where
  pub operation : Operation
  pub fixed_file : Bool
  pub file_index_alloc : Bool
  pub user_data : ℕ

abbrev pub Requests : Type 0
Requests = List Sqe

abbrev pub submit : Requests → Operation → Bool → ℕ → Requests
submit rs operation fixed handler =
    record {
      operation = operation;
      fixed_file = fixed;
      file_index_alloc = false;
      user_data = handler;
    }
    ∷ rs

unfoldable pub submit_multishot_accept : Requests → ℕ → ℕ → Requests
submit_multishot_accept rs server_socket handler =
    record {
      operation = multishot_accept_direct server_socket;
      fixed_file = false;
      file_index_alloc = true;
      user_data = handler;
    }
    ∷ rs

unfoldable pub submit_read : Requests → ℕ → ℕ → ℕ → ℕ → Bool → Requests
submit_read rs fd buffer len handler is_fixed = submit rs (recv fd buffer len) is_fixed handler

unfoldable pub submit_write : Requests → ℕ → ℕ → ℕ → ℕ → Bool → Requests
submit_write rs fd buffer len handler is_fixed = submit rs (send fd buffer len) is_fixed handler

unfoldable pub submit_writev : Requests → ℕ → List Iovec → ℕ → Bool → Requests
submit_writev rs fd iovs handler is_fixed = submit rs (writev fd iovs) is_fixed handler

unfoldable pub submit_close : Requests → ℕ → ℕ → Bool → Requests
submit_close rs fd handler is_fixed =
    submit rs (if is_fixed then close_direct fd else close fd) false handler

-- The cancel request itself has no handler.
unfoldable pub submit_cancel : Requests → ℕ → Requests
submit_cancel rs handler = submit rs (cancel handler) false 0

-- `Context::Wakeup`; `free` says whether `GetSqe` finds an entry.
unfoldable pub wakeup : Bool → Requests → Requests
wakeup free rs = if free then submit rs nop false 0 else rs

-- `io_uring_cqe`
pub record Cqe : Type 0 where
  pub user_data : ℕ
  pub res : ℤ
  pub flags : ℕ

-- The handlers: `on_complete` of the handler at an address, after `prepare_complete`.
module _ {S : Type 0} (complete : ℕ → ℤ → ℕ → S → S) where
  -- The loop over the completions, with `count`.
  unfoldable pub for_each_cqe : List Cqe → ℕ → S → S × ℕ
  for_each_cqe [] count s = (s, count)
  for_each_cqe (e ∷ es) count s =
      for_each_cqe es (count + 1)
        (if e.user_data == 0 then s else complete e.user_data e.res e.flags s)

  -- `ProcessEvents`, from what `io_uring_submit_and_wait` returns and the completions at hand.
  unfoldable pub process_events : ℤ → List Cqe → S → S × ℤ
  unfolding for_each_cqe
  process_events ret es s =
      let (s', count) = for_each_cqe es 0 s in
      if ltb_ℤ ret (pos 0) then (s, ret) else (s', pos count)

  -- The loop of `Context::Start` and of `Scheduler::IOLoop`: one call of `ProcessEvents` for each wait
  -- of the list, as long as `is_running`. `eintr` is `-EINTR`. The Boolean says whether it goes on.
  unfoldable pub io_loop : (S → Bool) → ℤ → List (ℤ × List Cqe) → S → S × Bool
  unfolding process_events
  io_loop is_running eintr [] s = (s, is_running s)
  io_loop is_running eintr ((ret, es) ∷ waits) s =
      let (s', r) = process_events ret es s in
      let rest = io_loop is_running eintr waits s' in
      let after = if ltb_ℤ r (pos 0) then (if eqb_ℤ r eintr then rest else (s', false)) else rest in
      if is_running s then after else (s, false)

-- `Acceptor`: the descriptors that `on_accept_cb_` was called with, last one first, and the requests
-- of its service.
pub record Acceptor : Type 0 where
  pub server_socket : ℕ
  pub address : ℕ
  pub accepted : List ℤ
  pub requests : Requests

unfoldable pub start : Acceptor → Acceptor
unfolding submit_multishot_accept
start a = record a { requests = submit_multishot_accept a.requests a.server_socket a.address }

abbrev pub accept_result : Acceptor → ℤ → Acceptor
accept_result a res = if ltb_ℤ res (pos 0) then a else record a { accepted = res ∷ a.accepted }

-- `on_complete`; `has_more` tests `IORING_CQE_F_MORE`.
unfoldable pub on_complete : (ℕ → Bool) → Acceptor → ℤ → ℕ → Acceptor
unfolding start
on_complete has_more a res flags =
    if has_more flags then accept_result a res else start (accept_result a res)
