-- ===== src/Util/Clock.antt =====
-- The two clocks of sylar/util.cpp.
use prozac.Prelude.{ℕ, ◌/◌, ◌^◌, ◌<◌, ◌≡◌, arith}
use prozac.Util.{get_current_ms, get_current_us}

-- `GetCurrentUS` and `GetCurrentMS` tell the same time, below 2 ^ 43 seconds, where the first does not wrap.
pub get_current_ms-get_current_us :
    (sec usec : ℕ)
    → sec < 2 ^ 43
    → usec < 1000000
    → get_current_us sec usec / 1000 ≡ get_current_ms sec usec
unfolding get_current_ms get_current_us
get_current_ms-get_current_us sec usec s u = omega arith
