-- ===== src/Constants.antt =====
-- include/ant_server/constants.hpp: the sizes. The ring of provided buffers is used nowhere yet.
use my_async_lib.Base.{ℕ, ◌-◌}

abbrev pub default_spmc_capacity : ℕ
default_spmc_capacity = 256

abbrev pub global_check_interval : ℕ
global_check_interval = 61

abbrev pub default_timing_wheel_slots : ℕ
default_timing_wheel_slots = 4096

abbrev pub default_timing_wheel_tick_ms : ℕ
default_timing_wheel_tick_ms = 10

abbrev pub default_uring_queue_size : ℕ
default_uring_queue_size = 256

abbrev pub task_sbo_size : ℕ
task_sbo_size = 48

abbrev pub default_http_buffer_size : ℕ
default_http_buffer_size = 16000

abbrev pub default_server_uring_size : ℕ
default_server_uring_size = 256

-- Where the compiler does not give it.
abbrev pub cache_line_size : ℕ
cache_line_size = 64

abbrev pub num_provided_buffers : ℕ
num_provided_buffers = 1024

abbrev pub provided_buffer_size : ℕ
provided_buffer_size = 4096

abbrev pub provided_buffer_group_id : ℕ
provided_buffer_group_id = 1

abbrev pub default_timing_wheel_slot_mask : ℕ
default_timing_wheel_slot_mask = default_timing_wheel_slots - 1

-- `kBufferSize` and `Server::kUringSize` of server.hpp
abbrev pub buffer_size : ℕ
buffer_size = 16000

abbrev pub uring_size : ℕ
uring_size = 256
