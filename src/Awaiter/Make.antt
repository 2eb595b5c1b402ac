-- ===== src/Awaiter/Make.antt =====
-- The awaiters of include/ant_server/awaiter/socket_awaiter.hpp before they suspend: their members,
-- their constructors, `await_ready`, and `await_resume` of all but the reads into a buffer.
use my_async_lib.Base.{ℕ, Bool, false, List, ◌==◌, length, ℤ}
use my_async_lib.Awaiter.{Awaiter, Job, read, write, write_iov, close, pending, init_iov}
use my_async_lib.Io.{Iovec}
use my_async_lib.Task.{IoHandler}

-- `BaseAwaiter`: the stop token is one that cannot be stopped, and the state is pending.
abbrev pub base_awaiter : ℕ → ℕ → Bool → Job → Awaiter
base_awaiter address fd is_fixed job = record {
  address = address;
  handle = 0;
  fd = fd;
  is_fixed = is_fixed;
  job = job;
  stop_possible = false;
  state = pending;
  bound = false;
}

-- `ReadAwaiter`; pointers are addresses, `target_iobuf` and `block` are 0 where there is none.
pub record ReadMembers : Type 0 where
  pub fd : ℕ
  pub buffer : ℕ
  pub len : ℕ
  pub target_iobuf : ℕ
  pub is_fixed : Bool
  pub block : ℕ

abbrev pub raw_read : ℕ → ℕ → ℕ → Bool → ReadMembers
raw_read client_fd buffer buffer_size is_fixed = record {
  fd = client_fd;
  buffer = buffer;
  len = buffer_size;
  target_iobuf = 0;
  is_fixed = is_fixed;
  block = 0;
}

-- A read into a buffer gets its bytes from the buffer's block when it starts.
abbrev pub iobuf_read : ℕ → ℕ → Bool → ReadMembers
iobuf_read client_fd target is_fixed = record {
  fd = client_fd;
  buffer = 0;
  len = 0;
  target_iobuf = target;
  is_fixed = is_fixed;
  block = 0;
}

abbrev pub read_awaiter : ℕ → ReadMembers → Awaiter
read_awaiter address r = base_awaiter address r.fd r.is_fixed (read r.buffer r.len)

abbrev pub read_ready : ReadMembers → Bool
read_ready r = false

-- `WriteAwaiter`
pub record WriteMembers : Type 0 where
  pub fd : ℕ
  pub buffer : ℕ
  pub len : ℕ
  pub is_fixed : Bool

abbrev pub raw_write : ℕ → ℕ → ℕ → Bool → WriteMembers
raw_write client_fd buffer buffer_size is_fixed = record {
  fd = client_fd;
  buffer = buffer;
  len = buffer_size;
  is_fixed = is_fixed;
}

abbrev pub write_awaiter : ℕ → WriteMembers → Awaiter
write_awaiter address w = base_awaiter address w.fd w.is_fixed (write w.buffer w.len)

abbrev pub write_ready : WriteMembers → Bool
write_ready w = false

abbrev pub write_resume : IoHandler → ℤ
write_resume h = h.res

-- `IOBufWriteAwaiter`; `iov_count` is the number of entries.
pub record IoBufWriteMembers : Type 0 where
  pub fd : ℕ
  pub is_fixed : Bool
  pub iovs : List Iovec
  pub iov_count : ℕ
  pub total_len : ℕ

abbrev pub iobuf_write : ℕ → List Iovec → Bool → IoBufWriteMembers
iobuf_write client_fd blocks is_fixed =
    let (iovs, total_len) = init_iov blocks in
    record {
      fd = client_fd;
      is_fixed = is_fixed;
      iovs = iovs;
      iov_count = length iovs;
      total_len = total_len;
    }

abbrev pub iobuf_write_awaiter : ℕ → IoBufWriteMembers → Awaiter
iobuf_write_awaiter address w = base_awaiter address w.fd w.is_fixed (write_iov w.iovs)

-- A write of no bytes does not wait.
abbrev pub iobuf_write_ready : IoBufWriteMembers → Bool
iobuf_write_ready w = w.total_len == 0

abbrev pub iobuf_write_resume : IoHandler → ℤ
iobuf_write_resume h = h.res

-- `CloseAwaiter`
pub record CloseMembers : Type 0 where
  pub fd : ℕ
  pub is_fixed : Bool

abbrev pub close_of : ℕ → Bool → CloseMembers
close_of client_fd is_fixed = record { fd = client_fd; is_fixed = is_fixed }

abbrev pub close_awaiter : ℕ → CloseMembers → Awaiter
close_awaiter address c = base_awaiter address c.fd c.is_fixed close

abbrev pub close_ready : CloseMembers → Bool
close_ready c = false

abbrev pub close_resume : IoHandler → ℤ
close_resume h = h.res
