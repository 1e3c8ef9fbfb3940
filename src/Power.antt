-- ===== src/Power.antt =====
-- internal/power: the sleep inhibitor that the broker holds while the vault is unlocked.
pub mod Balance
use vibe_coding_secret_manag.Prelude.{
  ℕ, ◌+◌, ◌-◌, Bool, true, false, Option, none, some, if◌then◌else◌,
}

-- GOOS of the build, which chooses power_linux.go, power_darwin.go, power_windows.go or
-- power_other.go.
pub data Platform : Type 0 where
  linux darwin windows other : Platform

-- The system: how many inhibitors run, and how often it has been asked for one.
pub record System : Type 0 where
  pub inhibitors : ℕ
  pub asked : ℕ

-- What the n-th call finds: the path of systemd-inhibit, and whether the helper process (on Windows,
-- the system call) starts.
pub record Tools : Type 0 where
  pub found : ℕ → Bool
  pub starts : ℕ → Bool

-- The function that acquire returns to stop with: it does nothing, or it ends the inhibitor.
pub data StopFunction : Type 0 where
  nothing ends_inhibitor : StopFunction

pub record Manager : Type 0 where
  pub active : Bool
  pub stop_function : Option StopFunction

abbrev pub new_manager : Manager
new_manager = record { active = false; stop_function = none }

module _ (tools : Tools) where
  start_helper : System → Option (StopFunction × Bool) × System
  start_helper s =
      if tools.starts s.asked
      then (
        some (ends_inhibitor, true),
        record { inhibitors = s.inhibitors + 1; asked = s.asked + 1 },
      )
      else (none, record s { asked = s.asked + 1 })

  no_helper : System → Option (StopFunction × Bool) × System
  no_helper s = (some (nothing, false), record s { asked = s.asked + 1 })

  -- acquire; none is an error
  unfoldable pub acquire : Platform → System → Option (StopFunction × Bool) × System
  unfolding start_helper no_helper
  acquire linux s = if tools.found s.asked then start_helper s else no_helper s
  acquire darwin s = start_helper s
  acquire windows s = start_helper s
  acquire other s = no_helper s

  started : Manager → Option (StopFunction × Bool) × System → Bool × Manager × System
  started m (none, s) = (false, m, s)
  started m (some (stop, active), s) =
      (true, record { active = active; stop_function = some stop }, s)

  -- Manager.Start; true is a nil error
  unfoldable pub start_power : Platform → Manager → System → Bool × Manager × System
  unfolding started
  start_power platform m s = if m.active then (true, m, s) else started m (acquire platform s)

-- calling the stop function
unfoldable pub call_stop : Option StopFunction → System → System
call_stop (some ends_inhibitor) s = record s { inhibitors = s.inhibitors - 1 }
call_stop _ s = s

-- Manager.Stop
unfoldable pub stop_power : Manager → System → Manager × System
unfolding call_stop
stop_power m s = (new_manager, call_stop m.stop_function s)
