-- ===== src/Entities/Graph.antt =====
-- backend/app/entity_graph/entity_graph.py, over memory_graph_repository.py. An identifier is the
-- text of a UUID; `N` and `L` are the other columns of a node and of an edge.
pub mod Invariant
pub mod Runs
pub mod Walk
pub mod Expand
pub mod Layers
pub mod Search
use tactical_core.Base.{
  ℕ, zero, suc, ◌+◌, String, str_eq, Bool, true, false, not, ◌&&◌, ◌||◌, Option, none, some, List,
  [], ◌∷◌, ◌++◌, any, filter, map, if◌then◌else◌,
}
use tactical_core.Base.Result.{Result, ok, err, ◌>>=◌, ◌>>◌, raise_if}
use tactical_core.Base.Dict.{Dict, lookup, has_key, insert, remove, update, values}

pub record GraphNode (N : Type 0) : Type 0 where
  pub node_id : String
  pub columns : N

pub record GraphEdge (L : Type 0) : Type 0 where
  pub edge_id : String
  pub source_node : String
  pub target_node : String
  pub columns : L

-- `MemoryGraphRepository`
pub record Graph (N L : Type 0) : Type 0 where
  pub nodes : Dict (GraphNode N)
  pub edges : Dict (GraphEdge L)

pub data ValueError : Type 0 where
  value_error : ValueError

abbrev pub touches : {L : Type 0} → String → GraphEdge L → Bool
touches id e = str_eq e.source_node id || str_eq e.target_node id

abbrev pub same_ends : {L : Type 0} → GraphEdge L → GraphEdge L → Bool
same_ends new e = str_eq e.source_node new.source_node && str_eq e.target_node new.target_node

abbrev pub contains : String → List String → Bool
contains x = any (str_eq x)

-- `set.add`; the order of a set is that of the first insertions
abbrev pub set_add : String → List String → List String
set_add x xs = if contains x xs then xs else xs ++ x ∷ []

-- The loop of `neighbors`
unfoldable pub neighbor_ids : {L : Type 0} → String → List (GraphEdge L) → List String → List String
neighbor_ids id [] found = found
neighbor_ids id (e ∷ es) found = neighbor_ids id es (
    if str_eq e.source_node id
    then set_add e.target_node found
    else if str_eq e.target_node id
    then set_add e.source_node found
    else found)

abbrev pub targets_of : {L : Type 0} → String → List (GraphEdge L) → List String
targets_of node edges = map (λ e. e.target_node) (filter (λ e. str_eq e.source_node node) edges)

-- The loop over the edges in `subgraph`, on `next_level`
unfoldable pub collect : Dict (List String) → List String → Dict (List String) → Dict (List String)
unfolding has_key insert
collect result [] next = next
collect result (n ∷ ns) next =
    collect result ns (if has_key n result then next else insert n [] next)

-- `for node in current_level`
unfoldable pub visit_level :
    {L : Type 0}
    → List (GraphEdge L)
    → List String
    → Dict (List String)
    → Dict (List String)
    → Dict (List String) × Dict (List String)
unfolding collect insert
visit_level edges [] result next = (result, next)
visit_level edges (node ∷ level) result next =
    let found = targets_of node edges in
    visit_level edges level (insert node found result) (collect result found next)

-- `for _ in range(depth)`
unfoldable pub subgraph_loop :
    {L : Type 0} → ℕ → List (GraphEdge L) → List String → Dict (List String) → Dict (List String)
unfolding visit_level update
subgraph_loop zero edges level result = result
subgraph_loop (suc depth) edges level result =
    let (result', next) = visit_level edges level result [] in
    subgraph_loop depth edges (map (λ e. e.0) next) (update next result')

-- The loop of `remove_node` over the edges.
unfoldable pub delete_touching :
    {L : Type 0} → String → List (GraphEdge L) → Dict (GraphEdge L) → Dict (GraphEdge L)
unfolding remove
delete_touching id [] edges = edges
delete_touching id (e ∷ es) edges =
    delete_touching id es (if touches id e then remove e.edge_id edges else edges)

-- `[get_node(nid) for nid in neighbor_ids if get_node(nid)]`
abbrev pub found_nodes : {N : Type 0} → Dict (GraphNode N) → List String → List (GraphNode N)
found_nodes nodes [] = []
found_nodes nodes (id ∷ ids) =
    let rest = found_nodes nodes ids in elim (lookup id nodes) [ none ↦ rest | some n ↦ n ∷ rest ]

module _ {N L : Type 0} where
  unfoldable pub create_node : GraphNode N → Graph N L → Result ValueError (Graph N L)
  unfolding has_key insert
  create_node node g = do
    raise_if (has_key node.node_id g.nodes) value_error
    ok (record g { nodes = insert node.node_id node g.nodes })

  unfoldable pub remove_node : String → Graph N L → Bool × Graph N L
  unfolding has_key remove delete_touching
  remove_node id g =
      if has_key id g.nodes
      then (
        true,
        record g { nodes = remove id g.nodes; edges = delete_touching id (values g.edges) g.edges },
      )
      else (false, g)

  unfoldable pub create_edge : GraphEdge L → Graph N L → Result ValueError (Graph N L)
  unfolding has_key insert
  create_edge edge g = do
    raise_if (not (has_key edge.source_node g.nodes && has_key edge.target_node g.nodes))
        value_error
    raise_if (any (same_ends edge) (values g.edges)) value_error
    ok (record g { edges = insert edge.edge_id edge g.edges })

  unfoldable pub remove_edge : String → Graph N L → Bool × Graph N L
  unfolding has_key remove
  remove_edge id g =
      if has_key id g.edges then (true, record g { edges = remove id g.edges }) else (false, g)

  unfoldable pub neighbors : String → Graph N L → List (GraphNode N)
  unfolding neighbor_ids lookup
  neighbors id g = found_nodes g.nodes (neighbor_ids id (values g.edges) [])

  unfoldable pub subgraph : String → ℕ → Graph N L → Dict (List String)
  unfolding subgraph_loop
  subgraph root depth g = subgraph_loop depth (values g.edges) (root ∷ []) ((root, []) ∷ [])

  unfoldable pub outgoing : String → Graph N L → List (GraphEdge L)
  outgoing id g = filter (λ e. str_eq e.source_node id) (values g.edges)

  unfoldable pub incoming : String → Graph N L → List (GraphEdge L)
  incoming id g = filter (λ e. str_eq e.target_node id) (values g.edges)

-- An entry of the queue: a node and the path to it.
abbrev pub Entry : Type 0
Entry = String × List String

-- What the loop over the edges does: it returns a path, or leaves `visited` and the queue.
pub data Expanded : Type 0 where
  reached : List String → Expanded
  going : List String → List Entry → Expanded

module _ {L : Type 0} where
  -- `for e in list_edges()` in `shortest_path`
  unfoldable pub expand : String → Entry → List (GraphEdge L) → List String → List Entry → Expanded
  expand target (current, path) [] visited queue = going visited queue
  expand target (current, path) (e ∷ es) visited queue =
      let path' = path ++ e.target_node ∷ [] in
      let skipped = expand target (current, path) es visited queue in
      let pushed =
        expand target (current, path) es (e.target_node ∷ visited)
          (queue ++ (e.target_node, path') ∷ []) in
      if str_eq e.source_node current && not (contains e.target_node visited)
      then (if str_eq e.target_node target then reached path' else pushed)
      else skipped

-- The result of the search: the path or `None`. The last case is the end of the model's fuel.
pub data Found : Type 0 where
  path : List String → Found
  no_path out_of_fuel : Found

module _ {L : Type 0} where
  -- `while queue`
  unfoldable pub search : ℕ → String → List (GraphEdge L) → List String → List Entry → Found
  unfolding expand
  search fuel target edges visited [] = no_path
  search zero target edges visited (entry ∷ queue) = out_of_fuel
  search (suc fuel) target edges visited (entry ∷ queue) =
      elim (expand target entry edges visited queue) [
        | reached p ↦ path p
        | going visited' queue' ↦ search fuel target edges visited' queue'
      ]

  unfoldable pub shortest_path : ℕ → String → String → List (GraphEdge L) → Found
  unfolding search
  shortest_path fuel source target edges =
      if str_eq source target
      then path (source ∷ [])
      else search fuel target edges (source ∷ []) ((source, source ∷ []) ∷ [])
