-- ===== src/Runtime/RestartPolicy.antt =====
-- backend/app/event_sources/runtime/restart_policy.py. Times are ticks of the monotonic clock.
use tactical_core.Base.{ℕ, ◌+◌, ◌-◌, Bool, Option, none, some, leb, if◌then◌else◌}

pub record RestartPolicy : Type 0 where
  pub max_restarts : ℕ
  pub restart_delay : ℕ
  pub reset_after_health : ℕ
  pub restart_count : ℕ
  pub last_healthy_at : Option ℕ

-- `max(0, max_restarts - restart_count)`
unfoldable pub remaining : RestartPolicy → ℕ
remaining p = p.max_restarts - p.restart_count

unfoldable pub exhausted : RestartPolicy → Bool
exhausted p = leb p.max_restarts p.restart_count

unfoldable pub record_failure : RestartPolicy → RestartPolicy
record_failure p = record p { restart_count = p.restart_count + 1; last_healthy_at = none }

unfoldable pub record_health : ℕ → RestartPolicy → RestartPolicy
record_health now p = elim p.last_healthy_at [
  | none ↦ record p { last_healthy_at = some now }
  | some since ↦
      if leb p.reset_after_health (now - since)
      then record p { restart_count = 0; last_healthy_at = some now }
      else p
]

unfoldable pub reset : RestartPolicy → RestartPolicy
reset p = record p { restart_count = 0; last_healthy_at = none }
