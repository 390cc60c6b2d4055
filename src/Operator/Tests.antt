-- ===== src/Operator/Tests.antt =====
-- The severity rules on a concrete ruleset.
use tactical_core.Base.{none, some, List, [], ◌∷◌}
use tactical_core.Operator.Severity.{Severity, BaselineRule}

abbrev rules : List BaselineRule
rules =
    record { rule_id = "R1"; event_type = none; source = some "signal"; severity = Severity.info }
    ∷ record {
      rule_id = "R2";
      event_type = some "signal.failed";
      source = some "signal";
      severity = Severity.critical;
    }
    ∷ record {
      rule_id = "R3";
      event_type = some "signal.failed";
      source = none;
      severity = Severity.warning;
    }
    ∷ []
