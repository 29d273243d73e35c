-- ===== src/Arbitration/Engine.antt =====
-- `CandidateArbitrator.decide` of arbitration/engine.py. The arbitrator's attributes are
-- `ArbitratorState`; a dict is the list of its writes, in which a later write of a key wins.
use mini_lakehouse.Common.{
  ℕ, ◌+◌, ◌*◌, Bool, false, not, ◌&&◌, ◌||◌, Option, none, some, List, [], ◌∷◌, ◌++◌, map, ltb, leb,
  ◌==◌, ◌!=◌, keep_if, length, same_list, sorted_set, if◌then◌else◌, find_last,
}
use mini_lakehouse.Common.Sort.{sorted}
use mini_lakehouse.Common.Decimal
use mini_lakehouse.Common.Decimal.{Decimal}
use mini_lakehouse.Candidate.{BaselineCandidate, name_id, is_candidate}
use mini_lakehouse.Arbitration.{
  RejectionReason, upstream_blocked, below_minimum_strength, lower_strategy_priority,
  symbol_cooldown, clock_capacity, ArbitrationRule,
}

-- A decision clock, `(trade_date, decision_at)`.
pub record DecisionClock : Type 0 where
  pub trade_date : ℕ
  pub decision_at : ℕ

-- A write of `_last_selected[symbol]`.
pub record Selection : Type 0 where
  pub symbol : ℕ
  pub decided_at : ℕ
  pub candidate_sha256 : ℕ

pub record ArbitratorState : Type 0 where
  pub last_selected : List Selection
  pub last_clock : Option DecisionClock

-- `CandidateArbitrator.__init__`
abbrev pub new_arbitrator : ArbitratorState
new_arbitrator = record { last_selected = []; last_clock = none }

-- A candidate with the rule of its strategy and its digest.
pub record Entrant : Type 0 where
  pub candidate : BaselineCandidate
  pub rule : ArbitrationRule
  pub digest : ℕ

-- The best eligible candidate of a symbol, and the others.
pub record Contest : Type 0 where
  pub winner : Entrant
  pub others : List Entrant

pub data Verdict : Type 0 where
  selected : (priority : ℕ) → Verdict
  rejected : RejectionReason → (selected_candidate : Option ℕ) → Verdict

abbrev pub clock_of : BaselineCandidate → DecisionClock
clock_of c = record { trade_date = c.trade_date; decision_at = c.decision_at }

abbrev pub same_clock : DecisionClock → DecisionClock → Bool
same_clock a b = a.trade_date == b.trade_date && a.decision_at == b.decision_at

-- Tuples are compared from the left.
abbrev pub clock_le : DecisionClock → DecisionClock → Bool
clock_le a b =
    ltb a.trade_date b.trade_date
    || (a.trade_date == b.trade_date && leb a.decision_at b.decision_at)

-- `self._last_clock is not None and clock <= self._last_clock`
abbrev pub is_stale : DecisionClock → Option DecisionClock → Bool
is_stale clock none = false
is_stale clock (some last) = clock_le clock last

-- `self._rules[strategy]`
abbrev pub rule_for : List ArbitrationRule → ℕ → Option ArbitrationRule
rule_for rules strategy = find_last (λ r. r.strategy == strategy) rules

abbrev pub of_symbol : ℕ → List BaselineCandidate → List BaselineCandidate
of_symbol s cs = keep_if (λ c. c.symbol == s) cs

-- `sorted(by_symbol)`
abbrev pub symbols_of : List BaselineCandidate → List ℕ
symbols_of cs = sorted_set (map (λ c. c.symbol) cs)

-- A symbol lacks a strategy, or has one twice.
abbrev pub is_incomplete : List ArbitrationRule → List BaselineCandidate → Bool
is_incomplete rules items =
    let expected = sorted_set (map (λ r. r.strategy) rules) in
    length items != length expected
    || not (same_list (sorted_set (map (λ c. name_id c.strategy) items)) expected)

-- The key of a contest: priority, then strength from the highest, then digest.
abbrev pub by_rank : Entrant → Entrant → Bool
by_rank a b =
    ltb a.rule.priority b.rule.priority
    || (a.rule.priority == b.rule.priority
        && (Decimal.lt b.candidate.strength a.candidate.strength
            || (Decimal.eq a.candidate.strength b.candidate.strength && leb a.digest b.digest)))

-- The key of the winners: priority, strength, symbol, digest.
abbrev pub by_merit : Contest → Contest → Bool
by_merit x y =
    let a = x.winner in
    let b = y.winner in
    ltb a.rule.priority b.rule.priority
    || (a.rule.priority == b.rule.priority
        && (Decimal.lt b.candidate.strength a.candidate.strength
            || (Decimal.eq a.candidate.strength b.candidate.strength
                && (ltb a.candidate.symbol b.candidate.symbol
                    || (a.candidate.symbol == b.candidate.symbol && leb a.digest b.digest)))))

-- The key of the result: symbol, priority, digest.
abbrev pub by_place : Entrant → Entrant → Bool
by_place a b =
    ltb a.candidate.symbol b.candidate.symbol
    || (a.candidate.symbol == b.candidate.symbol
        && (ltb a.rule.priority b.rule.priority
            || (a.rule.priority == b.rule.priority && leb a.digest b.digest)))

-- A write of `decisions[digest]`.
pub record Decision : Type 0 where
  pub key : ℕ
  pub entrant : Entrant
  pub verdict : Verdict

abbrev pub decide_as : Entrant → Verdict → Decision
decide_as e v = record { key = e.digest; entrant = e; verdict = v }

abbrev pub reject_all : RejectionReason → Option ℕ → List Entrant → List Decision
reject_all reason lineage es = map (λ e. decide_as e (rejected reason lineage)) es

-- The reason for which a candidate does not take part.
abbrev pub barred : Entrant → Option RejectionReason
barred e =
    if not (is_candidate e.candidate)
    then some upstream_blocked
    else if Decimal.lt e.candidate.strength e.rule.minimum_strength
    then some below_minimum_strength
    else none

abbrev pub eligible : List Entrant → List Entrant
eligible [] = []
eligible (e ∷ es) = elim (barred e) [ none ↦ e ∷ eligible es | some _ ↦ eligible es ]

abbrev pub screened : List Entrant → List Decision
screened [] = []
screened (e ∷ es) = elim (barred e) [
  | none ↦ screened es
  | some reason ↦ decide_as e (rejected reason none) ∷ screened es
]

-- `previous is not None and decision_at < previous[0] + timedelta(seconds=cooldown)`, with the
-- digest of the previous selection.
abbrev pub cooling : ℕ → ℕ → Option Selection → Option ℕ
cooling cooldown now none = none
cooling cooldown now (some previous) =
    if ltb now (previous.decided_at + cooldown * 1000000)
    then some previous.candidate_sha256
    else none

abbrev pub last_of : List Selection → ℕ → Option Selection
last_of log s = find_last (λ x. x.symbol == s) log

-- The head of a sorted list wins.
abbrev pub contest_of : List Entrant → List Contest
contest_of [] = []
contest_of (w ∷ os) = record { winner = w; others = os } ∷ []

-- One turn of the loop over the symbols: its decisions and its contest, if there is one.
abbrev pub contend : ℕ → ℕ → List Selection → ℕ → List Entrant → List Decision × List Contest
contend cooldown now log s es = elim (cooling cooldown now (last_of log s)) [
  | some previous ↦ (screened es ++ reject_all symbol_cooldown (some previous) (eligible es), [])
  | none ↦ (screened es, contest_of (sorted by_rank (eligible es)))
]

-- The loops over the selected winners and over those past the capacity.
abbrev pub crown : ℕ → List Contest → List Decision
crown n [] = []
crown n (c ∷ cs) =
    decide_as c.winner (selected n)
      ∷ reject_all lower_strategy_priority (some c.winner.digest) c.others
    ++ crown (n + 1) cs

abbrev pub pass_over : List Contest → List Decision
pass_over [] = []
pass_over (c ∷ cs) = reject_all clock_capacity none (c.winner ∷ c.others) ++ pass_over cs

-- `self._last_selected[candidate.symbol] = (decision_at, candidate.sha256)`
abbrev pub remember : ℕ → List Contest → List Selection
remember now cs =
    map
      (λ c. record {
        symbol = c.winner.candidate.symbol;
        decided_at = now;
        candidate_sha256 = c.winner.digest;
      })
      cs
