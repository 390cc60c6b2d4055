-- ===== src/Entities/Manager.antt =====
-- backend/app/entity_manager (entity.py, entity_manager.py, memory_repository.py) and
-- backend/app/entity_bridge/entity_bridge.py, with the projection of canonical events of
-- backend/app/composition.py that calls them. `V` is the type of the values of attributes; times
-- are microseconds.
pub mod Projected
pub mod Replay
use tactical_core.Base.{
  ℕ, ◌+◌, String, str_eq, Bool, true, false, ◌&&◌, ◌||◌, Option, none, some, List, [], ◌∷◌, filter,
  if◌then◌else◌,
}
use tactical_core.Base.Dict.{Dict, lookup, has_key, insert, remove, update, values}

pub record Entity (V : Type 0) : Type 0 where
  pub entity_id : String
  pub entity_type : String
  pub attributes : Dict V
  pub metadata : Dict V
  pub created_at : ℕ
  pub updated_at : ℕ
  pub version : ℕ

-- `MemoryRepository`
abbrev pub Repository : Type 0 → Type 0
Repository V = Dict (Entity V)

module _ {V : Type 0} where
  unfoldable pub save : Entity V → Repository V → Repository V
  unfolding insert
  save e store = insert e.entity_id e store

  unfoldable pub delete : String → Repository V → Bool × Repository V
  unfolding has_key remove
  delete id store = if has_key id store then (true, remove id store) else (false, store)

  unfoldable pub list_all : Option String → Repository V → List (Entity V)
  list_all none store = values store
  list_all (some t) store = filter (λ e. str_eq e.entity_type t) (values store)

  -- the two branches of `apply_update`
  abbrev pub updated : ℕ → Dict V → Dict V → Entity V → Entity V
  updated now payload metadata e = record e {
    attributes = update payload e.attributes;
    metadata = update metadata e.metadata;
    updated_at = now;
    version = e.version + 1;
  }

  abbrev pub created : ℕ → String → String → Dict V → Dict V → Entity V
  created now t id payload metadata = record {
    entity_id = id;
    entity_type = t;
    attributes = payload;
    metadata = metadata;
    created_at = now;
    updated_at = now;
    version = 1;
  }

  -- `payload if payload is not None else (updates or {})`
  abbrev pub effective : Option (Dict V) → Option (Dict V) → Dict V
  effective (some payload) updates = payload
  effective none (some updates) = updates
  effective none none = []

  abbrev pub or_empty : Option (Dict V) → Dict V
  or_empty none = []
  or_empty (some d) = d

  unfoldable pub apply_update :
      ℕ
      → String
      → String
      → Option (Dict V)
      → Option (Dict V)
      → Option (Dict V)
      → Repository V
      → Bool × Repository V
  unfolding save lookup update
  apply_update now t id payload updates metadata store = elim (lookup id store) [
    | some e ↦ (true, save (updated now (effective payload updates) (or_empty metadata) e) store)
    | none ↦ (true, save (created now t id (effective payload updates) (or_empty metadata)) store)
  ]

  unfoldable pub get_entity : String → String → Repository V → Option (Entity V)
  unfolding lookup
  get_entity t id store = elim (lookup id store) [
    | none ↦ none
    | some e ↦ if str_eq e.entity_type t then some e else none
  ]

  -- the type is not read
  unfoldable pub delete_entity : String → String → Repository V → Bool × Repository V
  unfolding delete
  delete_entity t id store = delete id store

-- The dict that the bridge is given: three keys, and the entries under all other keys.
pub record EventData (V : Type 0) : Type 0 where
  pub entity_type : Option String
  pub entity_id : Option String
  pub entity : Option (Dict V)
  pub others : Dict V

pub record UpdateRequest (V : Type 0) : Type 0 where
  pub entity_type : String
  pub entity_id : String
  pub updates : Dict V

-- A text that is neither `None` nor empty.
abbrev pub present : Option String → Option String
present none = none
present (some s) = if str_eq s "" then none else some s

module _ {V : Type 0} where
  unfoldable pub build_requests : EventData V → List (UpdateRequest V)
  build_requests event = elim (present event.entity_type) [
    | none ↦ []
    | some t ↦ elim (present event.entity_id) [
      | none ↦ []
      | some id ↦
          record {
            entity_type = t;
            entity_id = id;
            updates = elim event.entity [ none ↦ event.others | some d ↦ d ];
          }
          ∷ []
    ]
  ]

  unfoldable pub apply_request : ℕ → UpdateRequest V → Repository V → Repository V
  unfolding apply_update
  apply_request now r store =
      (apply_update now r.entity_type r.entity_id none (some r.updates) none store).1

  unfoldable pub apply_requests : ℕ → List (UpdateRequest V) → Repository V → Repository V
  unfolding apply_request
  apply_requests now [] store = store
  apply_requests now (r ∷ rs) store = apply_requests now rs (apply_request now r store)

  -- `EntityBridge.process_event`
  unfoldable pub process_event : ℕ → EventData V → Repository V → Repository V
  unfolding build_requests apply_requests
  process_event now event store = apply_requests now (build_requests event) store

-- What the projection reads of a canonical event.
pub record CanonicalEvent (V : Type 0) : Type 0 where
  pub event_type : String
  pub entity_id : Option String
  pub payload : Dict V

-- `project` of `_project_event_to_entity`
unfoldable pub project : {V : Type 0} → ℕ → CanonicalEvent V → Repository V → Repository V
unfolding process_event
project now e store =
    process_event now
      (record {
        entity_type = some e.event_type;
        entity_id = e.entity_id;
        entity = some e.payload;
        others = [];
      })
      store
