-- ===== src/Entities/Graph/Layers.antt =====
-- `shortest_path` of entity_graph.py: the search goes through the graph in layers, one for each
-- number of edges from the source.
use tactical_core.Base.{
  ℕ, zero, suc, ◌≤◌, String, str_eq, eq_iff, true, false, ◌||◌, List, [], ◌∷◌, ◌++◌, leb, leb→le,
  All, All-append, arith, ◌≡◌, refl, sym, subst, ◌∙◌, ◌⊎◌, inl, inr, Bool-cases,
}
use mathlib.Core.Bool.{false≢true}
use mathlib.Core.List.{append-nil}
use tactical_core.Entities.Graph.{GraphEdge, contains, Entry}
use tactical_core.Entities.Graph.Walk.{joins, Steps, Walk}
use tactical_core.Entities.Graph.Expand.{queued, Grows}

module _ {L : Type 0} (edges : List (GraphEdge L)) (source target : String) where
  -- Every edge from the node leads to a marked node.
  abbrev pub Closed : List String → String → Type 0
  Closed visited v = (d : String) → joins edges v d ≡ true → contains d visited ≡ true

  -- The search between two rounds: the front of the queue has walks of `n` edges, and the back of
  -- `suc n`; nodes at most `n` edges away are marked, and closed unless they wait in the front.
  pub record Layered (n : ℕ) (visited : List String) (front back : List Entry) : Type 0 where
    pub front_walks : All (λ (x : Entry). Walk edges source n x.1 x.0) front
    pub back_walks : All (λ (x : Entry). Walk edges source (suc n) x.1 x.0) back
    pub target_new : contains target visited ≡ false
    pub marked :
        (v : String)
        → contains v visited ≡ true
        → Closed visited v ⊎ (queued v (front ++ back) ≡ true)
    pub near :
        (m : ℕ) (v : String)
        → m ≤ n
        → Steps edges source m v
        → (contains v visited ≡ true) × (Closed visited v ⊎ (queued v front ≡ true))

  -- Where nothing waits in the front, the near nodes are closed.
  all-Closed :
      (n : ℕ) (visited : List String) (back : List Entry)
      → Layered n visited [] back
      → (m : ℕ) (v : String) → m ≤ n
      → Steps edges source m v
      → (contains v visited ≡ true) × Closed visited v
  all-Closed n visited back h m v le steps =
      let (seen, state) = h.near m v le steps in
      (seen, elim state [ inl closed ↦ closed | inr waits ↦ absurd (false≢true waits) ])

  further :
      (n : ℕ) (visited : List String) (back : List Entry)
      → Layered n visited [] back
      → (m : ℕ) (v : String) → m ≤ suc n
      → Steps edges source m v
      → (contains v visited ≡ true) × (Closed visited v ⊎ (queued v back ≡ true))
  further n visited back h zero v le steps =
      let (seen, closed) = all-Closed n visited back h 0 v (omega arith) steps in (seen, inl closed)
  further n visited back h (suc m) v le (c, steps, joined) =
      let (before, closed) = all-Closed n visited back h m c (omega arith) steps in
      let seen = closed v joined in (seen, h.marked v seen)

  -- The front is used up: the back is the next layer.
  pub next_layer :
      (n : ℕ) (visited : List String) (back : List Entry)
      → Layered n visited [] back
      → Layered (suc n) visited back []
  next_layer n visited back h = record {
    front_walks = h.back_walks;
    back_walks = tt;
    target_new = h.target_new;
    marked = λ v k.
        subst (λ q. Closed visited v ⊎ (queued v q ≡ true)) (sym (append-nil back)) (h.marked v k);
    near = further n visited back h;
  }

  queued-append :
      (v : String) (xs ys : List Entry) → queued v (xs ++ ys) ≡ (queued v xs || queued v ys)
  queued-append v [] ys = refl
  queued-append v (x ∷ xs) ys = ground (arith, queued-append v xs ys)

  -- An entry of the front is taken, and the loop over the edges pushes others.
  pub next_round :
      (n : ℕ) (current : String) (p : List String) (visited visited' : List String)
      (front back pushed : List Entry)
      → Layered n visited ((current, p) ∷ front) back
      → Grows edges source target n current edges visited visited' pushed
      → Layered n visited' front (back ++ pushed)
  next_round n current p visited visited' front back pushed h g = record {
    front_walks = h.front_walks.1;
    back_walks = All-append _ back pushed h.back_walks g.walks;
    target_new = g.target_new h.target_new;
    marked = λ v k. elim (g.marked v k) [
      | inl old ↦ elim (h.marked v old) [
        | inl closed ↦ inl (λ d j. g.kept d (closed d j))
        | inr waits ↦ elim (Bool-cases (str_eq v current)) [
          | inl same ↦ inl (now_closed v same)
          | inr other ↦ inr (
              ground (
                arith,
                waits,
                other,
                queued-append v front back,
                queued-append v front (back ++ pushed),
                queued-append v back pushed,
              ))
        ]
      ]
      | inr waits ↦ inr (
          ground
            (arith, waits, queued-append v front (back ++ pushed), queued-append v back pushed))
    ];
    near = λ m v le steps. (
      g.kept v (h.near m v le steps).0,
      elim (h.near m v le steps).1 [
        | inl closed ↦ inl (λ d j. g.kept d (closed d j))
        | inr waits ↦ elim (Bool-cases (str_eq v current)) [
          | inl same ↦ inl (now_closed v same)
          | inr other ↦ inr (ground (arith, waits, other))
        ]
      ],
    );
  }
    where
      now_closed : (v : String) → str_eq v current ≡ true → Closed visited' v
      now_closed v same = subst (λ c. Closed visited' c) (sym ((eq_iff v current).0 same)) g.covers

  -- With an empty queue, every node that a walk leads to is marked.
  pub all_marked :
      (n : ℕ) (visited : List String)
      → Layered n visited [] []
      → (m : ℕ) (v : String) → Steps edges source m v
      → contains v visited ≡ true
  all_marked n visited h zero v steps = (h.near 0 v (omega arith) steps).0
  all_marked n visited h (suc m) v (c, steps, joined) =
      elim (h.marked c (all_marked n visited h m c steps)) [
        | inl closed ↦ closed v joined
        | inr waits ↦ absurd (false≢true waits)
      ]

  -- A node that is not marked is further away than the layer.
  pub beyond :
      (n : ℕ) (visited : List String) (front back : List Entry)
      → Layered n visited front back
      → (m : ℕ) → Steps edges source m target
      → suc n ≤ m
  beyond n visited front back h m steps = elim (Bool-cases (leb m n)) [
    | inl near ↦
        absurd (false≢true (sym h.target_new ∙ (h.near m target (leb→le m n near) steps).0))
    | inr far ↦ ground (arith, far)
  ]
