-- ===== src/Configuration/Versions/Coverage.antt =====
-- The paper executions and gates of a valid trading configuration, over the policies that they refer to.
use mini_lakehouse.Common.{
  or_false, not-false, ℕ, ◌≡◌, ◌≤◌, refl, true, false, not, Option, none, some, List, ◌∷◌, [],
  !=→eq, All, All-IsIn, IsIn, Result, ok, >>-eq-ok, raise_if-eq-ok, ◌!=◌,
}
use mini_lakehouse.Arbitration.{ArbitrationPolicy}
use mini_lakehouse.Configuration.{
  ConfigurationError, Effective, is_effective, validate_effective_versions,
}
use mini_lakehouse.Configuration.Market.{trading_effective}
use mini_lakehouse.Configuration.Resolution.{covers_between}
use mini_lakehouse.Configuration.Policies.{
  outcome_effective, PaperExecutionVersion, PromotionGateVersion, ContextVersion,
  execution_effective, gate_effective, context_effective,
}
use mini_lakehouse.Configuration.Versions.{
  TradingConfiguration, validate_versions, arbitration_effective, each, check_execution,
  check_found_execution, check_arbitration, check_gate, check_evaluations, check_breadth,
  check_regimes, lookup, misses, misses_end,
}

each→All :
    {A : Type 0} (check : A → Result ConfigurationError Unit) (xs : List A)
    → each check xs ≡ ok tt
    → All (λ x. check x ≡ ok tt) xs
each→All check [] h = tt
each→All check (x ∷ xs) h =
    let parts = >>-eq-ok (check x) (each check xs) h in (parts.0, each→All check xs parts.1)

-- What `validate_versions` has checked: each kind of version, then how they refer to each other.
record Checked (c : TradingConfiguration) : Type 0 where
  versions : validate_effective_versions trading_effective c.versions ≡ ok tt
  outcomes : validate_effective_versions outcome_effective c.outcomes ≡ ok tt
  arbitrations : validate_effective_versions arbitration_effective c.candidate_arbitrations ≡ ok tt
  gates : validate_effective_versions gate_effective c.promotion_gates ≡ ok tt
  executions : validate_effective_versions execution_effective c.paper_executions ≡ ok tt
  contexts : validate_effective_versions context_effective c.contexts ≡ ok tt
  each_arbitration : All (λ a. check_arbitration c.outcomes a ≡ ok tt) c.candidate_arbitrations
  each_gate : All (λ g. check_gate c g ≡ ok tt) c.promotion_gates
  each_execution : All (λ p. check_execution c p ≡ ok tt) c.paper_executions

validate_versions-Checked : (c : TradingConfiguration) → validate_versions c ≡ ok tt → Checked c
unfolding validate_versions
validate_versions-Checked c h =
    let (v, h1) = >>-eq-ok _ _ h in
    let (o, h2) = >>-eq-ok _ _ h1 in
    let (_, h5) = >>-eq-ok (check_evaluations c.baseline_evaluations) _ h2 in
    let (a, h6) = >>-eq-ok _ _ h5 in
    let (g, h7) = >>-eq-ok _ _ h6 in
    let (p, h8) = >>-eq-ok _ _ h7 in
    let (x, h9) = >>-eq-ok _ _ h8 in
    let (_, h10) = >>-eq-ok (check_breadth c.capture c.breadth) _ h9 in
    let (_, h11) = >>-eq-ok (check_regimes c.breadth c.regimes) _ h10 in
    let (ea, h12) = >>-eq-ok (each (check_arbitration c.outcomes) c.candidate_arbitrations) _ h11 in
    let (eg, h13) = >>-eq-ok (each (check_gate c) c.promotion_gates) _ h12 in
    record {
      versions = v;
      outcomes = o;
      arbitrations = a;
      gates = g;
      executions = p;
      contexts = x;
      each_arbitration = each→All (check_arbitration c.outcomes) c.candidate_arbitrations ea;
      each_gate = each→All (check_gate c) c.promotion_gates eg;
      each_execution = each→All (check_execution c) c.paper_executions h13;
    }

-- What holds of a date that a paper execution of a valid configuration covers: its policies are
-- there, the gate is of the arbitration, and all of them cover the date.
pub record Covered (c : TradingConfiguration) (p : PaperExecutionVersion) (date : ℕ) : Type 0 where
  arbitration : ArbitrationPolicy
  gate : PromotionGateVersion
  context : ContextVersion
  arbitration_found :
      lookup arbitration_effective p.arbitration_version c.candidate_arbitrations ≡ some arbitration
  gate_found : lookup gate_effective p.promotion_gate_version c.promotion_gates ≡ some gate
  context_found : lookup context_effective p.context_version c.contexts ≡ some context
  same_arbitration : gate.arbitration_version ≡ arbitration.version
  arbitration_covers : is_effective arbitration_effective date arbitration ≡ true
  gate_covers : is_effective gate_effective date gate ≡ true
  context_covers : is_effective context_effective date context ≡ true

-- A policy that covers the first and the last date of an execution covers those between.
not_misses :
    {A : Type 0} (e : Effective A) (p : PaperExecutionVersion) (item : A) (last date : ℕ)
    → p.effective_to ≡ some last
    → misses e p item ≡ false
    → p.effective_from ≤ date
    → date ≤ last
    → is_effective e date item ≡ true
not_misses e p item last date closed h low high =
    let (at_start, at_end) =
      or_false (not (is_effective e p.effective_from item)) (misses_end e p.effective_to item) h in
    covers_between (e.starts item) (e.ends item) p.effective_from date last (not-false _ at_start)
      (not-false _ (rw closed at at_end)) low high

found_execution-Covered :
    (c : TradingConfiguration) (p : PaperExecutionVersion) (a : Option ArbitrationPolicy)
    (g : Option PromotionGateVersion) (x : Option ContextVersion) (last date : ℕ)
    → lookup arbitration_effective p.arbitration_version c.candidate_arbitrations ≡ a
    → lookup gate_effective p.promotion_gate_version c.promotion_gates ≡ g
    → lookup context_effective p.context_version c.contexts ≡ x
    → check_found_execution p a g x ≡ ok tt
    → p.effective_to ≡ some last
    → p.effective_from ≤ date
    → date ≤ last
    → Covered c p date
found_execution-Covered c p none g x last date ea eg ex h closed low high = cc
found_execution-Covered c p (some a) none x last date ea eg ex h closed low high = cc
found_execution-Covered c p (some a) (some g) none last date ea eg ex h closed low high = cc
found_execution-Covered c p (some a) (some g) (some x) last date ea eg ex h closed low high =
    let none_misses = raise_if-eq-ok _ _ h in
    let (h1, in_context) = or_false _ (misses context_effective p x) none_misses in
    let (h2, in_gate) = or_false _ (misses gate_effective p g) h1 in
    let (same, in_arbitration) =
      or_false (g.arbitration_version != a.version) (misses arbitration_effective p a) h2 in
    record {
      arbitration = a;
      gate = g;
      context = x;
      arbitration_found = ea;
      gate_found = eg;
      context_found = ex;
      same_arbitration = !=→eq g.arbitration_version a.version same;
      arbitration_covers =
          not_misses arbitration_effective p a last date closed in_arbitration low high;
      gate_covers = not_misses gate_effective p g last date closed in_gate low high;
      context_covers = not_misses context_effective p x last date closed in_context low high;
    }

-- In a valid trading configuration, on every date from the first to the last of a paper execution
-- that has a last date, the arbitration, the gate and the context that it names are there and
-- effective, and the gate is of that arbitration.
pub validate_versions-Covered :
    (c : TradingConfiguration) (p : PaperExecutionVersion) (last date : ℕ)
    → validate_versions c ≡ ok tt
    → IsIn p c.paper_executions
    → p.effective_to ≡ some last
    → p.effective_from ≤ date
    → date ≤ last
    → Covered c p date
validate_versions-Covered c p last date h found closed low high =
    found_execution-Covered c p _ _ _ last date refl refl refl
      (All-IsIn (λ q. check_execution c q ≡ ok tt) p c.paper_executions
        ((validate_versions-Checked c h).each_execution) found)
      closed low high
