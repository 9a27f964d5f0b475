-- ===== src/Tests/Timers.antt =====
-- A timer that is made at 100, started at 130 and paused at 150.
use lseb.Prelude.{◌≡◌, refl, arith, ok, err, assert_failed, true, false, ◌⊎◌}
use lseb.Timer.{Timer, create, start, pause, active_time, total_time}
use lseb.Timer.Totals.{Calls, created, started, stopped, total_time-Calls}

abbrev running_timer : Timer
running_timer = record { begin_time = 100; start_time = 130; active = 0; paused = false }

abbrev paused_timer : Timer
paused_timer = record { begin_time = 100; start_time = 130; active = 20; paused = true }

start_once : start (create 100) 130 ≡ ok running_timer
unfolding create start
start_once = refl

pause_once : pause running_timer 150 ≡ ok paused_timer
unfolding pause
pause_once = refl

abbrev two_calls : Calls paused_timer 150 20 30
two_calls =
    stopped 150 (started 130 (created 100 (omega arith)) (omega arith) (omega arith) start_once)
      (omega arith) (omega arith) pause_once

total_time-Calls_example :
    ((active_time paused_timer 190 ≡ 20)
      × (total_time paused_timer 190 ≡ 90)
      × ((t : Timer) × (start paused_timer 190 ≡ ok t))
      × (pause paused_timer 190 ≡ err assert_failed))
    ⊎ ((active_time paused_timer 190 ≡ 60)
        × (total_time paused_timer 190 ≡ 90)
        × (start paused_timer 190 ≡ err assert_failed)
        × (t : Timer) × (pause paused_timer 190 ≡ ok t))
total_time-Calls_example = total_time-Calls 190 two_calls (omega arith) (omega arith)
