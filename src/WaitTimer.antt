-- ===== src/WaitTimer.antt =====
-- src/wait_timer.rs: a point in time and how long to wait from it.
use rust_pinecone.Prelude.{ℕ, ◌-◌, Bool, false, ltb, if◌then◌else◌}

pub record WaitTimer : Type 0 where
  pub last_time : ℕ
  pub duration : ℕ

unfoldable pub new_timer : ℕ → ℕ → WaitTimer
new_timer now duration = record { last_time = now; duration = duration }

-- Where the clock has gone back, `duration_since` is an error, and the timer has not expired.
unfoldable pub is_expired : ℕ → WaitTimer → Bool
is_expired now t = if ltb now t.last_time then false else ltb t.duration (now - t.last_time)
