-- ===== src/Protocol/Header.antt =====
-- The length prefix of a frame.
use message_queue.Prelude.{ℕ, ◌%◌, ◌^◌, ◌<◌, ◌≡◌, refl, length, All, arith}
use message_queue.Protocol.{IsByte, put_uint32, uint32}

pub length-put_uint32 : (n : ℕ) → length (put_uint32 n) ≡ 4
unfolding put_uint32
length-put_uint32 n = refl

put_uint32-IsByte : (n : ℕ) → All IsByte (put_uint32 n)
unfolding put_uint32
put_uint32-IsByte n = omega arith

-- The prefix keeps the length modulo 2 ^ 32 only.
uint32-put_uint32 : (n : ℕ) → uint32 (put_uint32 n) ≡ n % 2 ^ 32
unfolding uint32 put_uint32
uint32-put_uint32 n = omega arith

pub uint32-put_uint32_small : (n : ℕ) → n < 2 ^ 32 → uint32 (put_uint32 n) ≡ n
unfolding uint32 put_uint32
uint32-put_uint32_small n h = omega arith
