-- ===== src/Operator/Severity.antt =====
-- backend/app/operator/severity.py: the rules of the baseline classification and how one of them is
-- chosen. The ruleset is an argument, as it is for `_resolve`.
pub mod Tiers
use tactical_core.Base.{
  Bool, true, false, not, ◌&&◌, ◌||◌, String, str_eq, Option, none, some, List, [], ◌∷◌, ℕ, suc,
  zero, length, ltb, filter, map, if◌then◌else◌, codes, ◌==◌,
}
use tactical_core.Base.Result.{Result, ok, err}

pub data Severity : Type 0 where
  info : Severity
  warning : Severity
  threat : Severity
  critical : Severity
  unclassified : Severity

pub record BaselineRule : Type 0 where
  pub rule_id : String
  pub event_type : Option String
  pub source : Option String
  pub severity : Severity

-- `SeverityConflictError`, with the sorted ids of the rules in conflict
pub data SeverityConflictError : Type 0 where
  conflict : List String → SeverityConflictError

abbrev pub is_some : Option String → Bool
is_some none = false
is_some (some s) = true

-- `_specificity`: (constrains the event type, constrains the source)
abbrev pub specificity : BaselineRule → Bool × Bool
specificity rule = (is_some rule.event_type, is_some rule.source)

-- the order of the tuples, False before True
abbrev pub less : Bool × Bool → Bool × Bool → Bool
less (a, b) (c, d) = (not a && c) || (not (a && not c) && (not b && d))

abbrev pub same : Bool × Bool → Bool × Bool → Bool
same (a, b) (c, d) = not (less (a, b) (c, d)) && not (less (c, d) (a, b))

abbrev pub is_wildcard_or : Option String → String → Bool
is_wildcard_or none s = true
is_wildcard_or (some t) s = str_eq t s

-- `_matches`
abbrev pub matches : String → String → BaselineRule → Bool
matches event_type source rule =
    is_wildcard_or rule.event_type event_type && is_wildcard_or rule.source source

-- `max(..., key=_specificity)`, which keeps the first of the greatest
unfoldable pub max_by_specificity : BaselineRule → List BaselineRule → BaselineRule
max_by_specificity best [] = best
max_by_specificity best (r ∷ rs) =
    max_by_specificity (if less (specificity best) (specificity r) then r else best) rs

-- the order of `str`, by code points
unfoldable pub codes_leb : List ℕ → List ℕ → Bool
codes_leb [] ys = true
codes_leb (x ∷ xs) [] = false
codes_leb (x ∷ xs) (y ∷ ys) = ltb x y || ((x == y) && codes_leb xs ys)

unfoldable pub insert_sorted : String → List String → List String
unfolding codes_leb
insert_sorted s [] = s ∷ []
insert_sorted s (t ∷ ts) =
    let rest = insert_sorted s ts in if codes_leb (codes s) (codes t) then s ∷ t ∷ ts else t ∷ rest

-- `sorted`
unfoldable pub sort_texts : List String → List String
unfolding insert_sorted
sort_texts [] = []
sort_texts (s ∷ ss) = insert_sorted s (sort_texts ss)

unfoldable pub rule_ids : List BaselineRule → List String
unfolding sort_texts
rule_ids rules = sort_texts (map (λ (r : BaselineRule). r.rule_id) rules)

-- `_resolve`, from the rules that match
unfoldable pub resolve_matching : List BaselineRule → Result SeverityConflictError Severity
unfolding max_by_specificity rule_ids
resolve_matching [] = ok Severity.unclassified
resolve_matching (r ∷ rs) =
    let best = max_by_specificity r rs in
    let tied = filter (λ (x : BaselineRule). same (specificity best) (specificity x)) (r ∷ rs) in
    if ltb 1 (length tied) then err (conflict (rule_ids tied)) else ok best.severity

-- `_resolve`
unfoldable pub resolve : List BaselineRule → String → String → Result SeverityConflictError Severity
unfolding resolve_matching
resolve rules event_type source = resolve_matching (filter (matches event_type source) rules)
