-- ===== src/Pipeline/Effects.antt =====
-- backend/app/event_pipeline/event_pipeline.py: the values that pass through the pipeline, and
-- computations that change the durable store and the world `W` and return or raise.
use tactical_core.Base.{String, Bool, true, false, Option, none, some, List, [], ◌∷◌}
use tactical_core.Base.Result.{Result, ok, err}
use tactical_core.Projection.EventLog.Deliveries.{Store}

-- `None`; a canonical `Event`, by its id and its other data; or an object of another class, by
-- its `event_id` attribute if it has one.
pub data Value (E X : Type 0) : Type 0 where
  absent : Value E X
  canonical : String → E → Value E X
  other : Option String → X → Value E X

-- `getattr(event, "event_id", None)`
unfoldable pub event_id : {E X : Type 0} → Value E X → Option String
event_id absent = none
event_id (canonical id columns) = some id
event_id (other id x) = id

-- The exceptions that leave `process`: of a callable that it is given, the TypeError of the
-- durable path, the IntegrityError of the commit, and the AttributeError of a conversion.
pub data Failure : Type 0 where
  raised type_error integrity attribute_error : Failure

pub record State (W E : Type 0) : Type 0 where
  pub world : W
  pub store : Store E

abbrev pub Action : Type 0 → Type 0 → Type 0 → Type 0
Action W E A = State W E → Result Failure A × State W E

module _ {W E : Type 0} where
  abbrev pub after_result :
      {A B : Type 0}
      → (A → Action W E B)
      → Result Failure A
      → State W E
      → Result Failure B × State W E
  after_result f (ok a) s = f a s
  after_result f (err e) s = (err e, s)

  infixl 5 ◌>>=◌ ◌>>◌
  abbrev pub ◌>>=◌ : {A B : Type 0} → Action W E A → (A → Action W E B) → Action W E B
  ◌>>=◌ m f s = let (r, s') = m s in after_result f r s'

  abbrev pub ◌>>◌ : {A B : Type 0} → Action W E A → Action W E B → Action W E B
  m >> k = m >>= λ _. k

  abbrev pub pure : {A : Type 0} → A → Action W E A
  pure a s = (ok a, s)

  abbrev pub throw : {A : Type 0} → Failure → Action W E A
  throw e s = (err e, s)

-- A callable that the pipeline is given acts on the world.
abbrev pub Callable : Type 0 → Type 0 → Type 0 → Type 0
Callable W V A = V → W → Result Failure A × W

module _ {W V : Type 0} where
  -- `for mw in middleware: event = mw(event)`
  unfoldable pub run_middleware : List (Callable W V V) → Callable W V V
  run_middleware [] v w = (ok v, w)
  run_middleware (mw ∷ mws) v w =
      let (r, w') = mw v w in elim r [ ok v' ↦ run_middleware mws v' w' | err e ↦ (err e, w') ]

  -- `for f in filters: if not f(event): return False`
  unfoldable pub passes : List (Callable W V Bool) → Callable W V Bool
  passes [] v w = (ok true, w)
  passes (f ∷ fs) v w =
      let (r, w') = f v w in
      elim r [ ok true ↦ passes fs v w' | ok false ↦ (ok false, w') | err e ↦ (err e, w') ]

-- Such a callable, run on the state.
abbrev pub call : {W V A E : Type 0} → Callable W V A → V → Action W E A
call f v s = let (r, w) = f v s.world in (r, record s { world = w })
