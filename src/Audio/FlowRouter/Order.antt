-- ===== src/Audio/FlowRouter/Order.antt =====
-- backend/app/audio/flow_router.py: lists of flows in the order of their last packets.
use tactical_core.Base.{
  ℕ, suc, subst, leb, length, ◌≤◌, ◌≡◌, refl, sym, ap, ◌∙◌, true, false, Option, none, some, List,
  [], ◌∷◌, ◌++◌, All, All-append, All-mono, arith, Bool-cases, inl, inr, if◌then◌else◌, eq_iff,
  eq_refl,
}
use tactical_core.Audio.FlowRouter.{FlowKey, FlowPipeline, key_eq, find_flow, without_flow, evict}

-- The times of the last packets, after one of the flow `key` at time `t`.
abbrev pub with_use : FlowKey → ℕ → (FlowKey → Option ℕ) → FlowKey → Option ℕ
with_use key t used k = if key_eq k key then some t else used k

key_eq-other : (k l m : FlowKey) → key_eq k m ≡ true → key_eq k l ≡ false → key_eq l m ≡ false
key_eq-other k l m same other = ground (
  arith,
  same,
  other,
  eq_iff k.src_ip m.src_ip,
  eq_iff l.src_ip m.src_ip,
  eq_iff k.src_ip l.src_ip,
)

pub key_eq-third : (k l m : FlowKey) → key_eq k m ≡ true → key_eq l m ≡ false → key_eq l k ≡ false
key_eq-third k l m same other = ground (
  arith,
  same,
  other,
  eq_iff k.src_ip m.src_ip,
  eq_iff l.src_ip m.src_ip,
  eq_iff l.src_ip k.src_ip,
)

pub key_eq_self : (k : FlowKey) → key_eq k k ≡ true
key_eq_self k = ground (arith, eq_refl k.src_ip)

module _ {R : Type 0} where
  -- The flow is stamped with the time of its last packet.
  abbrev pub IsStamped : (FlowKey → Option ℕ) → FlowPipeline R → Type 0
  IsStamped used p = used p.flow_key ≡ some p.last_access

  -- Each flow stands once, with a stamp up to `now`, and before those that were used later.
  abbrev pub IsByUse : (FlowKey → Option ℕ) → ℕ → List (FlowPipeline R) → Type 0
  IsByUse used now [] = Unit
  IsByUse used now (p ∷ ps) =
      IsStamped used p
      × (p.last_access ≤ now)
      × All (λ (q : FlowPipeline R). key_eq p.flow_key q.flow_key ≡ false) ps
      × All (λ (q : FlowPipeline R). p.last_access ≤ q.last_access) ps
      × IsByUse used now ps

  -- No flow of the list has the key.
  abbrev pub IsWithout : FlowKey → List (FlowPipeline R) → Type 0
  IsWithout key = All (λ (q : FlowPipeline R). key_eq q.flow_key key ≡ false)

  pub IsByUse-use :
      (key : FlowKey) (now t : ℕ) (used : FlowKey → Option ℕ) (ps : List (FlowPipeline R))
      → now ≤ t
      → IsWithout key ps
      → IsByUse used now ps
      → IsByUse (with_use key t used) t ps
  IsByUse-use key now t used [] le other h = tt
  IsByUse-use key now t used (p ∷ ps) le other (stamp, early, once, before, rest) = (
    rw other.0 stamp,
    omega (arith, le, early),
    once,
    before,
    IsByUse-use key now t used ps le other.1 rest,
  )

  pub IsByUse-later :
      (used : FlowKey → Option ℕ) (now t : ℕ) (ps : List (FlowPipeline R))
      → now ≤ t
      → IsByUse used now ps
      → IsByUse used t ps
  IsByUse-later used now t [] le h = tt
  IsByUse-later used now t (p ∷ ps) le (stamp, early, once, before, rest) =
      (stamp, omega (arith, le, early), once, before, IsByUse-later used now t ps le rest)

  All-without_flow :
      (P : FlowPipeline R → Type 0) (key : FlowKey) (ps : List (FlowPipeline R))
      → All P ps
      → All P (without_flow key ps)
  unfolding without_flow
  All-without_flow P key [] h = tt
  All-without_flow P key (p ∷ ps) h = elim (Bool-cases (key_eq p.flow_key key)) [
    | inl same ↦ rw same h.1
    | inr other ↦ rw other (h.0, All-without_flow P key ps h.1)
  ]

  pub without_flow-IsByUse :
      (used : FlowKey → Option ℕ) (now : ℕ) (key : FlowKey) (ps : List (FlowPipeline R))
      → IsByUse used now ps
      → IsByUse used now (without_flow key ps) × IsWithout key (without_flow key ps)
  unfolding without_flow
  without_flow-IsByUse used now key [] h = (tt, tt)
  without_flow-IsByUse used now key (p ∷ ps) (stamp, early, once, before, rest) =
      elim (Bool-cases (key_eq p.flow_key key)) [
        | inl same ↦ rw same (
          rest,
          All-mono (λ (q : FlowPipeline R). key_eq p.flow_key q.flow_key ≡ false)
              (λ (q : FlowPipeline R). key_eq q.flow_key key ≡ false) ps
              (λ q other. key_eq-other p.flow_key q.flow_key key same other) once,
        )
        | inr other ↦
            let (left, gone) = without_flow-IsByUse used now key ps rest in
            rw other (
              (
                stamp,
                early,
                All-without_flow _ key ps once,
                All-without_flow _ key ps before,
                left,
              ),
              (other, gone),
            )
      ]

  -- A flow of the key, used now, is put at the end.
  pub append-IsByUse :
      (used : FlowKey → Option ℕ) (now : ℕ) (ps : List (FlowPipeline R)) (p : FlowPipeline R)
      → IsByUse used now ps
      → IsWithout p.flow_key ps
      → IsStamped used p
      → p.last_access ≡ now
      → IsByUse used now (ps ++ p ∷ [])
  append-IsByUse used now [] p h other stamp late = (stamp, omega (arith, late), tt, tt, tt)
  append-IsByUse used now (q ∷ ps) p (q_stamp, early, once, before, rest) other stamp late = (
    q_stamp,
    early,
    All-append _ ps (p ∷ []) once (other.0, tt),
    All-append _ ps (p ∷ []) before (omega (arith, early, late), tt),
    append-IsByUse used now ps p rest other.1 stamp late,
  )

  -- The tail that an eviction leaves.
  IsByUse-suffix :
      (used : FlowKey → Option ℕ) (now : ℕ) (xs ys : List (FlowPipeline R))
      → IsByUse used now (xs ++ ys)
      → IsByUse used now ys
  IsByUse-suffix used now [] ys h = h
  IsByUse-suffix used now (x ∷ xs) ys (stamp, early, once, before, rest) =
      IsByUse-suffix used now xs ys rest

  All-suffix :
      (P : FlowPipeline R → Type 0) (xs ys : List (FlowPipeline R)) → All P (xs ++ ys) → All P ys
  All-suffix P [] ys h = h
  All-suffix P (x ∷ xs) ys h = All-suffix P xs ys h.1

  some_not_none : {p : FlowPipeline R} → ¬ (some p ≡ none)
  some_not_none e = ground (arith, e)

  some_injective : {p q : FlowPipeline R} → some p ≡ some q → p ≡ q
  some_injective e = ground (arith, e)

  pub absent-IsWithout :
      (key : FlowKey) (ps : List (FlowPipeline R)) → find_flow key ps ≡ none → IsWithout key ps
  unfolding find_flow
  absent-IsWithout key [] h = tt
  absent-IsWithout key (p ∷ ps) h = elim (Bool-cases (key_eq p.flow_key key)) [
    | inl same ↦ let found : some p ≡ none = rw same at h in absurd (some_not_none found)
    | inr other ↦ (other, absent-IsWithout key ps (rw other at h))
  ]

  pub find_flow-key :
      (key : FlowKey) (ps : List (FlowPipeline R)) (p : FlowPipeline R)
      → find_flow key ps ≡ some p
      → key_eq p.flow_key key ≡ true
  unfolding find_flow
  find_flow-key key [] p h = ground arith
  find_flow-key key (q ∷ ps) p h = elim (Bool-cases (key_eq q.flow_key key)) [
    | inl same ↦
        let found : some q ≡ some p = rw same at h in
        let is_p : q ≡ p = some_injective found in
        ap (λ (x : FlowPipeline R). key_eq x.flow_key key) (sym is_p) ∙ same
    | inr other ↦ find_flow-key key ps p (rw other at h)
  ]

  pub evict-split :
      (limit : ℕ) (ps : List (FlowPipeline R)) → ps ≡ (evict limit ps).0 ++ (evict limit ps).1
  unfolding evict
  evict-split limit [] = refl
  evict-split limit (p ∷ ps) = elim (Bool-cases (leb limit (suc (length ps)))) [
    | inl full ↦ rw full (ap (λ t. p ∷ t) (evict-split limit ps))
    | inr room ↦ rw room refl
  ]

  -- The flows that an eviction leaves, seen after a packet of another flow.
  pub kept-IsByUse :
      (now t : ℕ) (key : FlowKey) (used : FlowKey → Option ℕ) (limit : ℕ)
      (ps : List (FlowPipeline R))
      → now ≤ t
      → IsWithout key ps
      → IsByUse used now ps
      → IsByUse (with_use key t used) t (evict limit ps).1 × IsWithout key (evict limit ps).1
  kept-IsByUse now t key used limit ps le other h =
      let (evicted, kept) = evict limit ps in
      let split = evict-split limit ps in
      let without = All-suffix _ evicted kept (subst (IsWithout key) split other) in
      (
        IsByUse-use key now t used kept le without
            (IsByUse-suffix used now evicted kept (subst (IsByUse used now) split h)),
        without,
      )

  -- The flow `p` was used before `q`, or at the same time.
  abbrev pub IsOlder : (FlowKey → Option ℕ) → FlowPipeline R → FlowPipeline R → Type 0
  IsOlder used p q = (t u : ℕ) × (used p.flow_key ≡ some t) × (used q.flow_key ≡ some u) × (t ≤ u)

  All-IsStamped :
      (used : FlowKey → Option ℕ) (now : ℕ) (ps : List (FlowPipeline R))
      → IsByUse used now ps
      → All (IsStamped used) ps
  All-IsStamped used now [] h = tt
  All-IsStamped used now (p ∷ ps) (stamp, early, once, before, rest) =
      (stamp, All-IsStamped used now ps rest)

  All-IsOlder :
      (used : FlowKey → Option ℕ) (p : FlowPipeline R) (ps : List (FlowPipeline R))
      → IsStamped used p
      → All (λ (q : FlowPipeline R). p.last_access ≤ q.last_access) ps
      → All (IsStamped used) ps
      → All (IsOlder used p) ps
  All-IsOlder used p [] stamp h stamps = tt
  All-IsOlder used p (q ∷ ps) stamp h stamps =
      ((_, _, stamp, stamps.0, h.0), All-IsOlder used p ps stamp h.1 stamps.1)

  -- In the order of use, what stands in front is older.
  pub IsByUse-IsOlder :
      (used : FlowKey → Option ℕ) (now : ℕ) (xs ys : List (FlowPipeline R))
      → IsByUse used now (xs ++ ys)
      → All (λ p. All (IsOlder used p) ys) xs
  IsByUse-IsOlder used now [] ys h = tt
  IsByUse-IsOlder used now (x ∷ xs) ys (stamp, early, once, before, rest) = (
    All-IsOlder used x ys stamp (All-suffix _ xs ys before)
        (All-suffix (IsStamped used) xs ys (All-IsStamped used now (xs ++ ys) rest)),
    IsByUse-IsOlder used now xs ys rest,
  )
