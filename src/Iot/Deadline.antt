-- ===== src/Iot/Deadline.antt =====
-- The time to live of a command.
use ocm.Prelude.{ℕ, ◌*◌, ◌≤◌, ◌<◌, ◌≡◌, arith}
use ocm.Prelude.Int.{pos}
use ocm.Iot.Commands.{clamp_command_ttl}

-- For a number of seconds of at least one: up to ten minutes the time to live is that number of
-- seconds, and ten minutes for more, as long as the number of nanoseconds fits 63 bits; from there
-- on, up to 64 bits, the product is negative and the time to live is one second.
pub clamp_command_ttl-exact :
    (n : ℕ)
    → 1 ≤ n
    → ((n ≤ 600) → clamp_command_ttl (pos n) ≡ n * 1000000000)
      × ((600 < n) → (n ≤ 9223372036) → clamp_command_ttl (pos n) ≡ 600000000000)
      × ((9223372036 < n) → (n ≤ 18446744073) → clamp_command_ttl (pos n) ≡ 1000000000)
unfolding clamp_command_ttl
clamp_command_ttl-exact n h = (λ a. ground arith, λ a b. ground arith, λ a b. ground arith)
