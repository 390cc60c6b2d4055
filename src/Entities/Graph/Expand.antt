-- ===== src/Entities/Graph/Expand.antt =====
-- The loop over the edges in `shortest_path` of entity_graph.py: what it pushes and marks.
use tactical_core.Base.{
  ℕ, suc, ◌+◌, ◌≤◌, String, str_eq, eq_iff, Bool, true, false, not, ◌&&◌, List, [], ◌∷◌, ◌++◌, any,
  filter, length, All, arith, ◌≡◌, refl, sym, ap, ◌∙◌, ◌⊎◌, inl, inr, Bool-cases,
}
use mathlib.Core.List.{append-nil, append_assoc}
use tactical_core.Entities.Graph.{GraphEdge, contains, Entry, Expanded, reached, going, expand}
use tactical_core.Entities.Graph.Walk.{joins, Walk, extend}

abbrev pub queued : String → List Entry → Bool
queued v = any (λ (x : Entry). str_eq v x.0)

module _ {L : Type 0} where
  -- The edges to nodes that are not marked.
  abbrev pub unvisited : List (GraphEdge L) → List String → ℕ
  unvisited edges visited = length (filter (λ e. not (contains e.target_node visited)) edges)

  unvisited-le :
      (edges : List (GraphEdge L)) (d : String) (visited : List String)
      → unvisited edges (d ∷ visited) ≤ unvisited edges visited
  unvisited-le [] d visited = omega arith
  unvisited-le (e ∷ es) d visited = ground (arith, unvisited-le es d visited)

  unvisited-lt :
      (edges : List (GraphEdge L)) (c d : String) (visited : List String)
      → joins edges c d ≡ true
      → contains d visited ≡ false
      → suc (unvisited edges (d ∷ visited)) ≤ unvisited edges visited
  unvisited-lt [] c d visited h new = ground arith
  unvisited-lt (e ∷ es) c d visited h new = ground (
    arith,
    h,
    new,
    unvisited-lt es c d visited,
    unvisited-le es d visited,
    eq_iff e.target_node d,
  )

  -- What the loop over `es` does, for an entry of a walk with `n` edges.
  module _ (edges : List (GraphEdge L)) (source target : String) (n : ℕ) (current : String) where
    pub record Grows (es : List (GraphEdge L)) (visited visited' : List String)
        (pushed : List Entry) : Type 0 where
      pub kept : (v : String) → contains v visited ≡ true → contains v visited' ≡ true
      pub marked :
          (v : String)
          → contains v visited' ≡ true
          → (contains v visited ≡ true) ⊎ (queued v pushed ≡ true)
      pub walks : All (λ (x : Entry). Walk edges source (suc n) x.1 x.0) pushed
      pub target_new : contains target visited ≡ false → contains target visited' ≡ false
      pub covers : (d : String) → joins es current d ≡ true → contains d visited' ≡ true
      pub smaller : length pushed + unvisited edges visited' ≤ unvisited edges visited

    pub data Expands (es : List (GraphEdge L)) (visited : List String) (queue : List Entry)
        : Expanded → Type 0 where
      reaches :
          (p : List String)
          → Walk edges source (suc n) p target
          → Expands es visited queue (reached p)
      goes :
          (visited' : List String) (queue' pushed : List Entry)
          → queue' ≡ queue ++ pushed
          → Grows es visited visited' pushed
          → Expands es visited queue (going visited' queue')

    skip :
        (e : GraphEdge L) (es : List (GraphEdge L)) (visited : List String) (queue : List Entry)
        {x : Expanded}
        → (str_eq e.source_node current && not (contains e.target_node visited)) ≡ false
        → Expands es visited queue x
        → Expands (e ∷ es) visited queue x
    skip e es visited queue cond (reaches p walk) = reaches p walk
    skip e es visited queue cond (goes visited' queue' pushed eq g) =
        goes visited' queue' pushed eq (record {
          kept = g.kept;
          marked = g.marked;
          walks = g.walks;
          target_new = g.target_new;
          covers = λ d h. ground (arith, h, cond, g.covers d, g.kept d, eq_iff e.target_node d);
          smaller = g.smaller;
        })

    push :
        (p : List String) (e : GraphEdge L) (es : List (GraphEdge L)) (visited : List String)
        (queue : List Entry) {x : Expanded}
        → Walk edges source n p current
        → e.source_node ≡ current
        → joins edges e.source_node e.target_node ≡ true
        → contains e.target_node visited ≡ false
        → str_eq e.target_node target ≡ false
        → Expands es
            (e.target_node ∷ visited)
            (queue ++ (e.target_node, p ++ e.target_node ∷ []) ∷ [])
            x
        → Expands (e ∷ es) visited queue x
    push p e es visited queue walk from joined new other (reaches p' walk') = reaches p' walk'
    push p e es visited queue walk from joined new other (goes visited' queue' pushed eq g) =
        let entry : Entry = (e.target_node, p ++ e.target_node ∷ []) in
        goes visited' queue' (entry ∷ pushed) (eq ∙ append_assoc queue (entry ∷ []) pushed)
          (record {
            kept = λ v h. g.kept v (ground (arith, h));
            marked = λ v h. elim (g.marked v h) [
              | inl seen ↦ elim (Bool-cases (str_eq v e.target_node)) [
                | inl same ↦ inr (ground (arith, same))
                | inr differs ↦ inl (ground (arith, seen, differs))
              ]
              | inr waits ↦ inr (ground (arith, waits))
            ];
            walks = (
              extend walk (ap (λ c. joins edges c e.target_node) (sym from) ∙ joined) refl,
              g.walks,
            );
            target_new = λ h. g.target_new (
                ground (arith, h, other, eq_iff e.target_node target, eq_iff target e.target_node));
            covers = λ d h.
                ground
                  (arith, h, g.kept d, g.covers d, eq_iff e.target_node d, eq_iff d e.target_node);
            smaller = omega (
              arith,
              g.smaller,
              unvisited-lt edges e.source_node e.target_node visited joined new,
            );
          })

    -- The loop, from any place in the list of edges.
    pub expand-Expands :
        (p : List String) (es : List (GraphEdge L)) (visited : List String) (queue : List Entry)
        → Walk edges source n p current
        → All (λ e. joins edges e.source_node e.target_node ≡ true) es
        → Expands es visited queue (expand target (current, p) es visited queue)
    unfolding expand
    expand-Expands p [] visited queue walk all =
        goes visited queue [] (sym (append-nil queue)) (record {
          kept = λ v h. h;
          marked = λ v h. inl h;
          walks = tt;
          target_new = λ h. h;
          covers = λ d h. cc;
          smaller = omega arith;
        })
    expand-Expands p (e ∷ es) visited queue walk all =
        elim (Bool-cases (str_eq e.source_node current && not (contains e.target_node visited))) [
          | inr skipped ↦
              rw (skipped, expand)
                (skip e es visited queue skipped (expand-Expands p es visited queue walk all.1))
          | inl chosen ↦
              let from : e.source_node ≡ current =
                ground (arith, chosen, eq_iff e.source_node current) in
              let new : contains e.target_node visited ≡ false = ground (arith, chosen) in
              elim (Bool-cases (str_eq e.target_node target)) [
                | inl found ↦
                    let to = (eq_iff e.target_node target).0 found in
                    rw (chosen, expand, found)
                      (reaches (p ++ e.target_node ∷ []) (
                        extend walk
                          (ap (λ c. joins edges c target) (sym from)
                            ∙ ap (joins edges e.source_node) (sym to)
                            ∙ all.0)
                          (ap (λ d. p ++ d ∷ []) to)))
                | inr other ↦
                    rw (chosen, expand, other)
                      (push p e es visited queue walk from all.0 new other (
                        expand-Expands p es (e.target_node ∷ visited)
                          (queue ++ (e.target_node, p ++ e.target_node ∷ []) ∷ []) walk all.1))
              ]
        ]
