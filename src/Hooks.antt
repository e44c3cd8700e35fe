-- ===== src/Hooks.antt =====
-- packages/core/src/lifecycle.ts: how `HookManager` runs the hooks of one kind. A hook is code that takes a
-- state to a state and may throw; awaiting a hook is running it to its end.
use axiomify.Base.{Option, none, some, List, [], ◌∷◌}

abbrev pub Hook : Type 0 → Type 0 → Type 0
Hook S E = S → S × Option E

module _ {S E : Type 0} where
  -- What comes after a statement that may throw.
  unfoldable pub and_then : S × Option E → Hook S E → S × Option E
  and_then (s, none) k = k s
  and_then (s, some e) k = (s, some e)

  unfoldable pub execute_sequential : List (Hook S E) → Hook S E
  execute_sequential [] s = (s, none)
  execute_sequential (hook ∷ hooks) s = and_then (hook s) (execute_sequential hooks)

  unfoldable pub run : List (Hook S E) → Hook S E
  run [] s = (s, none)
  run (hook ∷ []) s = hook s
  run (hook ∷ next ∷ hooks) s = execute_sequential (hook ∷ next ∷ hooks) s

  -- An error is logged and goes no further.
  unfoldable pub absorb : (E → S → S) → S × Option E → S
  absorb log (s, none) = s
  absorb log (s, some e) = log e s

  unfoldable pub execute_safe_sequential : (E → S → S) → List (Hook S E) → S → S
  execute_safe_sequential log [] s = s
  execute_safe_sequential log (hook ∷ hooks) s =
      execute_safe_sequential log hooks (absorb log (hook s))

  unfoldable pub run_safe : (E → S → S) → List (Hook S E) → S → S
  run_safe log [] s = s
  run_safe log (hook ∷ hooks) s = execute_safe_sequential log (hook ∷ hooks) s
