-- ===== src/Entities/Relations.antt =====
-- backend/app/entity_relations: relation.py, relation_manager.py and memory_relation_repository.py.
-- `C` is the other columns of a relation, which `create_relation` sets from its other arguments.
pub mod Runs
use tactical_core.Base.{
  ℕ, String, str_eq, Bool, true, false, not, ◌&&◌, ◌||◌, Option, none, some, List, [], ◌∷◌, any,
  filter, if◌then◌else◌,
}
use tactical_core.Base.Result.{Result, ok, err, ◌>>=◌, ◌>>◌, raise_if}
use tactical_core.Base.Dict.{Dict, lookup, has_key, insert, remove, values}

pub record Relation (C : Type 0) : Type 0 where
  pub relation_id : String
  pub source_entity_id : String
  pub target_entity_id : String
  pub relation_type : String
  pub columns : C

abbrev pub supported_relations : List String
supported_relations =
    "owns" ∷ "controls" ∷ "belongs_to" ∷ "connected_to" ∷ "parent" ∷ "child" ∷ "located_at"
    ∷ "identified_as" ∷ "communicates_with" ∷ []

unfoldable pub is_supported : String → Bool
is_supported t = any (str_eq t) supported_relations

pub data ValueError : Type 0 where
  unsupported duplicate : ValueError

module _ {C : Type 0} where
  -- `MemoryRelationRepository`
  unfoldable pub save : Relation C → Dict (Relation C) → Dict (Relation C)
  unfolding insert
  save r store = insert r.relation_id r store

  unfoldable pub delete : String → Dict (Relation C) → Bool × Dict (Relation C)
  unfolding has_key remove
  delete id store = if has_key id store then (true, remove id store) else (false, store)

  abbrev pub concerns : String → Relation C → Bool
  concerns id r = str_eq r.source_entity_id id || str_eq r.target_entity_id id

  unfoldable pub list_for_entity : String → Dict (Relation C) → List (Relation C)
  list_for_entity id store = filter (concerns id) (values store)

  -- the duplicate check of `create_relation`
  abbrev pub leads : String → String → Relation C → Bool
  leads target t r = str_eq r.target_entity_id target && str_eq r.relation_type t

  -- `uuid` is the new relation's id
  unfoldable pub create_relation :
      String
      → String
      → String
      → String
      → C
      → Dict (Relation C)
      → Result ValueError (String × Dict (Relation C))
  unfolding is_supported list_for_entity save
  create_relation uuid source target t columns store = do
    raise_if (not (is_supported t)) unsupported
    raise_if (any (leads target t) (list_for_entity source store)) duplicate
    ok (
      uuid,
      save
          (record {
            relation_id = uuid;
            source_entity_id = source;
            target_entity_id = target;
            relation_type = t;
            columns = columns;
          })
          store,
    )

  unfoldable pub remove_relation : String → Dict (Relation C) → Bool × Dict (Relation C)
  unfolding delete
  remove_relation id store = delete id store

  unfoldable pub get_relations : String → Dict (Relation C) → Option (Relation C)
  unfolding lookup
  get_relations id store = lookup id store

  unfoldable pub get_outgoing : String → Dict (Relation C) → List (Relation C)
  unfolding list_for_entity
  get_outgoing id store = filter (λ r. str_eq r.source_entity_id id) (list_for_entity id store)

  unfoldable pub get_incoming : String → Dict (Relation C) → List (Relation C)
  unfolding list_for_entity
  get_incoming id store = filter (λ r. str_eq r.target_entity_id id) (list_for_entity id store)
