-- ===== src/Timer.antt =====
-- common/timer.h: the time that passes between `start` and `pause`. Each call has the clock's reading as an argument;
-- times are 64-bit words, and `rate`, which is floating point, is left out.
pub mod Totals
use lseb.Prelude.{
  ℕ, Bool, true, false, not, Result, ok, assert, ◌>>◌, if◌then◌else◌, add_size, sub_size,
}

pub record Timer : Type 0 where
  pub begin_time : ℕ
  pub start_time : ℕ
  pub active : ℕ
  pub paused : Bool

-- The constructor. A time point that is not given is the clock's zero.
unfoldable pub create : ℕ → Timer
create now = record { begin_time = now; start_time = 0; active = 0; paused = true }

unfoldable pub start : Timer → ℕ → Result Timer
start t now = do assert t.paused; ok (record t { start_time = now; paused = false })

unfoldable pub pause : Timer → ℕ → Result Timer
pause t now = do
  assert (not t.paused)
  ok (record t { active = add_size t.active (sub_size now t.start_time); paused = true })

unfoldable pub active_time : Timer → ℕ → ℕ
active_time t now = if t.paused then t.active else add_size t.active (sub_size now t.start_time)

unfoldable pub total_time : Timer → ℕ → ℕ
total_time t now = sub_size now t.begin_time

unfoldable pub reset : Timer → ℕ → Timer
reset t now = record t { begin_time = now; active = 0; paused = true }
