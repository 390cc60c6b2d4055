-- ===== src/Operator/Severity/Tiers.antt =====
-- backend/app/operator/severity.py: `_resolve` against the four tiers that its docstring names.
use tactical_core.Base.{Bool, true, false, List, [], ◌∷◌, ◌≡◌, filter, arith, All}
use tactical_core.Base.Result.{Result, ok, err}
use tactical_core.Operator.Severity.{
  Severity, BaselineRule, SeverityConflictError, conflict, specificity, less, same, rule_ids,
}

-- The rules of a tier.
abbrev pub tier : Bool × Bool → List BaselineRule → List BaselineRule
tier key = filter (λ (x : BaselineRule). same key (specificity x))

-- What a tier says: the severity of its only rule, a conflict of several, or what `below` says.
unfoldable pub decide_tier :
    List BaselineRule
    → Result SeverityConflictError Severity
    → Result SeverityConflictError Severity
decide_tier [] below = below
decide_tier (r ∷ []) below = ok r.severity
decide_tier (r ∷ s ∷ rs) below = err (conflict (rule_ids (r ∷ s ∷ rs)))

-- EVENT+SOURCE > EVENT-ONLY > SOURCE-ONLY > GENERIC
unfoldable pub by_tiers : List BaselineRule → Result SeverityConflictError Severity
unfolding decide_tier
by_tiers rules = decide_tier (tier (true, true) rules) (
    decide_tier (tier (true, false) rules) (
      decide_tier (tier (false, true) rules)
        (decide_tier (tier (false, false) rules) (ok Severity.unclassified))))

less_or_same : (k l : Bool × Bool) → less k l ≡ false → same l k ≡ false → less l k ≡ true
less_or_same (a, b) (c, d) h1 h2 = ground arith

-- No rule is more specific than the one that `max` gives.
abbrev AtMost : Bool × Bool → BaselineRule → Type 0
AtMost key x = less key (specificity x) ≡ false

-- No rule is more specific than `m`, and `m` is the first of its tier.
abbrev IsBest : BaselineRule → BaselineRule → List BaselineRule → Type 0
IsBest m b rs =
    AtMost (specificity m) b
    × All (AtMost (specificity m)) rs
    × ((t : List BaselineRule) × (tier (specificity m) (b ∷ rs) ≡ m ∷ t))
