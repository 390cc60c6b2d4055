-- ===== src/Entities/Tests.antt =====
-- The entity graph on a concrete graph.
use tactical_core.Base.{ℕ, ◌+◌, ◌≡◌, refl, String, Option, none, some, List, [], ◌∷◌, arith}
use tactical_core.Base.Result.{err}
use tactical_core.Base.Dict.{Dict, lookup, has_key}
use tactical_core.Base.Twins.{HasNoTwins}
use tactical_core.Entities.Manager.{Entity, CanonicalEvent}
use tactical_core.Entities.Manager.Projected.{attribute, version}
use tactical_core.Entities.Manager.Replay.{
  project_all, last_written, count_affecting, project_all-replay,
}
use tactical_core.Entities.Relations.{Relation, is_supported, duplicate, create_relation}
use tactical_core.Entities.Relations.Runs as Relations
use tactical_core.Entities.Relations.Runs.{
  creating, removing, same_triple, run-HasNoTwins, create_relation_self,
}
use tactical_core.Entities.Graph.{
  Graph, GraphNode, GraphEdge, path, no_path, shortest_path, subgraph,
}
use tactical_core.Entities.Graph.Search.{IsShortest, shortest_path-IsShortest}
use tactical_core.Entities.Graph.Runs.{
  Call, creating_node, removing_node, creating_edge, removing_edge, run, IsGraph, run-IsGraph,
}

abbrev node : String → GraphNode ℕ
node id = record { node_id = id; columns = 0 }

abbrev edge : String → String → String → GraphEdge ℕ
edge id from to = record { edge_id = id; source_node = from; target_node = to; columns = 0 }

abbrev edges : List (GraphEdge ℕ)
edges =
    edge "1" "a" "b"
    ∷ edge "2" "b" "c"
    ∷ edge "3" "a" "d"
    ∷ edge "4" "c" "e"
    ∷ edge "5" "d" "e"
    ∷ []

shortest_path-IsShortest_example : IsShortest edges "a" "e" (shortest_path 7 "a" "e" edges)
shortest_path-IsShortest_example = shortest_path-IsShortest edges "a" "e" 7 (omega arith)

finds_the_short_way : shortest_path 7 "a" "e" edges ≡ path ("a" ∷ "d" ∷ "e" ∷ [])
unfolding shortest_path
finds_the_short_way = refl

finds_none : shortest_path 7 "e" "a" edges ≡ no_path
unfolding shortest_path
finds_none = refl

abbrev calls : List (Call ℕ ℕ)
calls =
    creating_node (node "a")
    ∷ creating_node (node "b")
    ∷ creating_edge (edge "1" "a" "b")
    ∷ creating_edge (edge "2" "a" "b")
    ∷ creating_edge (edge "3" "a" "c")
    ∷ removing_node "b"
    ∷ removing_edge "1"
    ∷ []

abbrev empty : Graph ℕ ℕ
empty = record { nodes = []; edges = [] }

run-IsGraph_example : IsGraph (run calls empty)
run-IsGraph_example =
    run-IsGraph calls empty (record { node_keys = tt; edge_keys = tt; no_twins = tt; fit = tt })

run_leaves : run calls empty ≡ record { nodes = ("a", node "a") ∷ []; edges = [] }
unfolding run
run_leaves = refl

abbrev whole : Graph ℕ ℕ
whole = record {
  nodes = [];
  edges = ("1", edge "1" "a" "b") ∷ ("2", edge "2" "b" "c") ∷ ("3", edge "3" "c" "d") ∷ [];
}

two_levels : subgraph "a" 2 whole ≡ ("a", "b" ∷ []) ∷ ("b", "c" ∷ []) ∷ ("c", []) ∷ []
unfolding subgraph
two_levels = refl

abbrev event : Option String → Dict ℕ → CanonicalEvent ℕ
event id payload = record { event_type = "entity.updated"; entity_id = id; payload = payload }

abbrev events : List (CanonicalEvent ℕ)
events =
    event (some "e1") (("speed", 3) ∷ ("course", 90) ∷ [])
    ∷ event none (("speed", 4) ∷ [])
    ∷ event (some "e2") (("speed", 5) ∷ [])
    ∷ event (some "e1") (("speed", 6) ∷ [])
    ∷ []

abbrev clock : ℕ → ℕ
clock n = 100 + n

none_found : {e : Entity ℕ} → ◌≡◌ {A = Option (Entity ℕ)} none (some e) → ⊥
none_found h = cc

project_all-replay_example :
    let once = project_all clock 0 events [] in
    let twice = project_all clock 4 events once in
    (attribute "e1" "speed" once ≡ last_written "e1" "speed" events (attribute "e1" "speed" []))
    × (version "e1" once ≡ count_affecting "e1" events + version {V = ℕ} "e1" [])
    × (attribute "e1" "speed" twice ≡ attribute "e1" "speed" once)
    × (version "e1" twice ≡ count_affecting "e1" events + version "e1" once)
unfolding lookup has_key
project_all-replay_example =
    project_all-replay clock 0 4 events [] "e1" "speed"
      ((refl, (refl, tt)), ((refl, tt), ((refl, tt), ((refl, tt), tt))))
      (λ id e h. absurd (none_found h))

abbrev relation : String → String → String → Relation ℕ
relation id from to = record {
  relation_id = id;
  source_entity_id = from;
  target_entity_id = to;
  relation_type = "owns";
  columns = 0;
}

abbrev relation_calls : List (Relations.Call ℕ)
relation_calls =
    creating "r1" "a" "b" "owns" 0
    ∷ creating "r2" "a" "b" "owns" 1
    ∷ creating "r3" "b" "b" "owns" 0
    ∷ removing "r1"
    ∷ creating "r4" "b" "b" "owns" 0
    ∷ []

run-HasNoTwins_example : HasNoTwins same_triple (Relations.run relation_calls [])
run-HasNoTwins_example = run-HasNoTwins relation_calls [] tt

create_relation_self_example :
    create_relation "r9" "b" "b" "owns" 0 (("r1", relation "r1" "a" "b") ∷ []) ≡ err duplicate
unfolding is_supported
create_relation_self_example =
    create_relation_self "r9" "b" "owns" 0 (("r1", relation "r1" "a" "b") ∷ []) refl refl
