-- ===== src/Power/Balance.antt =====
-- The manager against its specification: one flag, which says whether an inhibitor runs.
use vibe_coding_secret_manag.Prelude.{
  ℕ, ◌+◌, ◌≡◌, refl, Bool, true, false, List, [], ◌∷◌, Option, some, arith, if◌then◌else◌,
}
use vibe_coding_secret_manag.Power.{
  Platform, System, Tools, StopFunction, ends_inhibitor, Manager, new_manager, acquire, start_power,
  stop_power,
}

abbrev pub holds : Option StopFunction → Bool
holds (some ends_inhibitor) = true
holds _ = false

-- The manager is active exactly while its stop function ends an inhibitor, and that is the only one
-- that the system has more than `outside`.
pub record IsBalanced (outside : ℕ) (m : Manager) (s : System) : Type 0 where
  pub honest : m.active ≡ holds m.stop_function
  pub counted : s.inhibitors ≡ outside + (if m.active then 1 else 0)

pub stop_power-IsBalanced :
    (outside : ℕ) (m : Manager) (s : System)
    → IsBalanced outside m s
    → IsBalanced outside (stop_power m s).0 (stop_power m s).1
unfolding stop_power
stop_power-IsBalanced outside m s b = record {
  honest = refl;
  counted = ground (arith, b.honest, b.counted);
}

pub data Call : Type 0 where
  starts stops : Call

module _ (tools : Tools) (platform : Platform) where
  pub start_power-IsBalanced :
      (outside : ℕ) (m : Manager) (s : System)
      → IsBalanced outside m s
      → IsBalanced outside (start_power tools platform m s).1 (start_power tools platform m s).2
  unfolding start_power acquire
  start_power-IsBalanced outside m s b = record {
    honest = ground (arith, b.honest, b.counted);
    counted = ground (arith, b.honest, b.counted);
  }

  -- The calls of the manager, one after the other; what Start returns is not looked at.
  abbrev pub after_calls : List Call → Manager → System → Manager × System
  after_calls [] m s = (m, s)
  after_calls (starts ∷ calls) m s =
      let (done, m', s') = start_power tools platform m s in after_calls calls m' s'
  after_calls (stops ∷ calls) m s = let (m', s') = stop_power m s in after_calls calls m' s'

  after_calls-IsBalanced :
      (outside : ℕ) (calls : List Call) (m : Manager) (s : System)
      → IsBalanced outside m s
      → IsBalanced outside (after_calls calls m s).0 (after_calls calls m s).1
  after_calls-IsBalanced outside [] m s b = b
  after_calls-IsBalanced outside (starts ∷ calls) m s b =
      after_calls-IsBalanced outside calls _ _ (start_power-IsBalanced outside m s b)
  after_calls-IsBalanced outside (stops ∷ calls) m s b =
      after_calls-IsBalanced outside calls _ _ (stop_power-IsBalanced outside m s b)

  -- After any calls of Start and Stop on a new manager, whichever of them fail, the system runs
  -- one inhibitor more than before if the manager says that it is active, and none more if it is
  -- not.
  pub after_calls-inhibitors :
      (calls : List Call) (s : System)
      → (after_calls calls new_manager s).1.inhibitors
        ≡ s.inhibitors + (if (after_calls calls new_manager s).0.active then 1 else 0)
  after_calls-inhibitors calls s =
      (after_calls-IsBalanced s.inhibitors calls new_manager s
        (record { honest = refl; counted = omega arith })).counted
