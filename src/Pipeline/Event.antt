-- ===== src/Pipeline/Event.antt =====
-- backend/app/event/event.py and event_metadata.py: the canonical event. `V` is the type of the values
-- of its payload and its properties; times are microseconds. The record's types are what the checks
-- of `__post_init__` ask for.
use tactical_core.Base.{ℕ, String, Option, List}
use tactical_core.Base.Dict.{Dict}

pub record Metadata (V : Type 0) : Type 0 where
  pub tags : List String
  pub properties : Dict V
  pub correlation_id : Option String

pub record Event (V : Type 0) : Type 0 where
  pub event_id : String
  pub entity_id : Option String
  pub event_type : String
  pub timestamp : ℕ
  pub source : String
  pub payload : Dict V
  pub metadata : Option (Metadata V)
  pub created_at : ℕ
