-- ===== src/Random.antt =====
-- include/ant_server/utils/random.hpp: xorshift on 32 bits. The state is the calling thread's `x`,
-- and a call returns the new state, which is also its result.
use Prim.Native.Nat.{bit_xor}
use my_async_lib.Base.{ℕ, ◌*◌, ◌/◌, ◌%◌, ◌^◌}

-- `x ^= x << k` and `x ^= x >> k` on uint32_t
abbrev shift_left : ℕ → ℕ → ℕ
shift_left x k = (x * 2 ^ k) % 2 ^ 32

abbrev shift_right : ℕ → ℕ → ℕ
shift_right x k = x / 2 ^ k

unfoldable pub fast_random : ℕ → ℕ
fast_random x =
    let a = bit_xor x (shift_left x 13) in
    let b = bit_xor a (shift_right a 17) in bit_xor b (shift_left b 5)
