-- ===== src/Pipeline/Dispatch.antt =====
-- backend/app/event_dispatcher/event_dispatcher.py: `EventDispatcher`. Middleware and hooks act on the
-- world and return or raise; `publish` is that of the event bus.
use tactical_core.Base.{
  ℕ, Bool, true, false, Option, none, some, List, [], ◌∷◌, ◌++◌, if◌then◌else◌,
}
use tactical_core.Base.Result.{ok, err}
use tactical_core.Pipeline.Effects.{Callable}

pub record EventDispatcher (W V : Type 0) : Type 0 where
  pub publish : V → W → ℕ × W
  pub middleware : List (Callable W V (Option V))
  pub before_hooks : List (Callable W V Unit)
  pub after_hooks : List (Callable W (V × ℕ) Unit)
  pub error_hooks : List (Callable W V Unit)

-- a loop over hooks, whichever of them raise
unfoldable pub call_hooks : {W A : Type 0} → List (Callable W A Unit) → A → W → W
call_hooks [] a w = w
call_hooks (hook ∷ hooks) a w = call_hooks hooks a (hook a w).1

module _ {W V : Type 0} where
  -- the loop over the middleware: what raises is passed over, `None` drops the event
  unfoldable pub through_middleware : List (Callable W V (Option V)) → V → W → Option V × W
  through_middleware [] v w = (some v, w)
  through_middleware (mw ∷ mws) v w =
      let (r, w') = mw v w in
      elim r [
        | ok none ↦ (none, w')
        | ok (some v') ↦ through_middleware mws v' w'
        | err e ↦ through_middleware mws v w'
      ]

  unfoldable pub dispatch : EventDispatcher W V → V → W → ℕ × W
  unfolding through_middleware call_hooks
  dispatch d v w =
      let (processed, w1) = through_middleware d.middleware v w in
      elim processed [
        | none ↦ (0, w1)
        | some v' ↦
            let (count, w2) = d.publish v' (call_hooks d.before_hooks v' w1) in
            (count, call_hooks d.after_hooks (v', count) w2)
      ]

  unfoldable pub add_middleware :
      Callable W V (Option V) → EventDispatcher W V → EventDispatcher W V
  add_middleware mw d = record d { middleware = d.middleware ++ mw ∷ [] }

  -- `list.remove`, and whether the middleware was there, by the test `same`
  unfoldable pub remove_one :
      (Callable W V (Option V) → Bool)
      → List (Callable W V (Option V))
      → Bool × List (Callable W V (Option V))
  remove_one same [] = (false, [])
  remove_one same (mw ∷ mws) =
      let (found, rest) = remove_one same mws in if same mw then (true, mws) else (found, mw ∷ rest)

  unfoldable pub remove_middleware :
      (Callable W V (Option V) → Bool) → EventDispatcher W V → Bool × EventDispatcher W V
  unfolding remove_one
  remove_middleware same d =
      let (found, left) = remove_one same d.middleware in (found, record d { middleware = left })

  unfoldable pub clear_middleware : EventDispatcher W V → EventDispatcher W V
  clear_middleware d = record d { middleware = [] }

  unfoldable pub register_before_dispatch :
      Callable W V Unit → EventDispatcher W V → EventDispatcher W V
  register_before_dispatch hook d = record d { before_hooks = d.before_hooks ++ hook ∷ [] }

  unfoldable pub register_after_dispatch :
      Callable W (V × ℕ) Unit → EventDispatcher W V → EventDispatcher W V
  register_after_dispatch hook d = record d { after_hooks = d.after_hooks ++ hook ∷ [] }

  unfoldable pub register_error_dispatch :
      Callable W V Unit → EventDispatcher W V → EventDispatcher W V
  register_error_dispatch hook d = record d { error_hooks = d.error_hooks ++ hook ∷ [] }

  unfoldable pub clear_hooks : EventDispatcher W V → EventDispatcher W V
  clear_hooks d = record d { before_hooks = []; after_hooks = []; error_hooks = [] }
