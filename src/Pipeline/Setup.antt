-- ===== src/Pipeline/Setup.antt =====
-- backend/app/event_pipeline/event_pipeline.py: the attributes of `EventPipeline` and the methods
-- that set them. The repository is the durable event log of `Projection.EventLog`, one that has
-- `save` only, or none.
use tactical_core.Base.{String, Bool, Option, none, some, List, [], ◌∷◌, ◌++◌, if◌then◌else◌}
use tactical_core.Delivery.Dispatcher.{Dispatcher}
use tactical_core.Pipeline.Effects.{Value, Callable}

pub data Repository (W V : Type 0) : Type 0 where
  no_repository : Repository W V
  atomic : Repository W V
  plain : Callable W V Unit → Repository W V

pub record Pipeline (W E X : Type 0) : Type 0 where
  pub before_middleware : List (Callable W (Value E X) (Value E X))
  pub filters : List (Callable W (Value E X) Bool)
  pub after_middleware : List (Callable W (Value E X) (Value E X))
  pub dispatcher : Option (Callable W (Value E X) Unit)
  pub repository : Repository W (Value E X)
  pub event_bus : Option (Callable W (Value E X) Unit)
  pub projection : Option (Callable W (Value E X) Unit)
  pub delivery : Option (Dispatcher W (Value E X))
  pub outbox_consumer_ids : List String

module _ {W E X : Type 0} where
  unfoldable pub set_dispatcher : Callable W (Value E X) Unit → Pipeline W E X → Pipeline W E X
  set_dispatcher f p = record p { dispatcher = some f }

  unfoldable pub set_repository : Repository W (Value E X) → Pipeline W E X → Pipeline W E X
  set_repository r p = record p { repository = r }

  unfoldable pub set_event_bus : Callable W (Value E X) Unit → Pipeline W E X → Pipeline W E X
  set_event_bus f p = record p { event_bus = some f }

  unfoldable pub set_projection : Callable W (Value E X) Unit → Pipeline W E X → Pipeline W E X
  set_projection f p = record p { projection = some f }

  unfoldable pub set_delivery_dispatcher :
      Dispatcher W (Value E X) → Pipeline W E X → Pipeline W E X
  set_delivery_dispatcher d p = record p { delivery = some d }

  unfoldable pub set_outbox_consumer_ids : List String → Pipeline W E X → Pipeline W E X
  set_outbox_consumer_ids ids p = record p { outbox_consumer_ids = ids }

  -- `list.remove` of the first filter that equals the given one, by the test `same`
  unfoldable pub remove_first :
      (Callable W (Value E X) Bool → Bool)
      → List (Callable W (Value E X) Bool)
      → List (Callable W (Value E X) Bool)
  remove_first same [] = []
  remove_first same (f ∷ fs) = let rest = remove_first same fs in if same f then fs else f ∷ rest

  unfoldable pub remove_filter :
      (Callable W (Value E X) Bool → Bool) → Pipeline W E X → Pipeline W E X
  unfolding remove_first
  remove_filter same p = record p { filters = remove_first same p.filters }

  unfoldable pub add_filter : Callable W (Value E X) Bool → Pipeline W E X → Pipeline W E X
  add_filter f p = record p { filters = p.filters ++ f ∷ [] }

  unfoldable pub add_before : Callable W (Value E X) (Value E X) → Pipeline W E X → Pipeline W E X
  add_before mw p = record p { before_middleware = p.before_middleware ++ mw ∷ [] }

  unfoldable pub add_after : Callable W (Value E X) (Value E X) → Pipeline W E X → Pipeline W E X
  add_after mw p = record p { after_middleware = p.after_middleware ++ mw ∷ [] }

  unfoldable pub clear : Pipeline W E X → Pipeline W E X
  clear p = record p {
    before_middleware = [];
    filters = [];
    after_middleware = [];
    dispatcher = none;
    repository = no_repository;
    event_bus = none;
    projection = none;
  }
