-- ===== src/Arbitration/Decide/Distinct.antt =====
-- A clock of arbitration/engine.py selects a symbol at most once.
use mini_lakehouse.Common.{
  ℕ, ◌≤◌, ◌≡◌, refl, inl, inr, Bool, false, List, [], ◌∷◌, arith, Option-cases, Bool-cases, ◌==◌,
  All, IsUnique, contains, keep_if, sum_of, sum_of-append, ok, if◌then◌else◌, IsIncreasing-IsUnique,
  sorted_set-IsIncreasing,
}
use mini_lakehouse.Common.Sort.{sorted, All-sorted, sum_of-sorted}
use mini_lakehouse.Common.Writes.{sum_of-take}
use mini_lakehouse.Candidate.{BaselineCandidate}
use mini_lakehouse.Arbitration.{ArbitrationPolicy, CandidateArbitration}
use mini_lakehouse.Arbitration.Engine.{
  ArbitratorState, Selection, Entrant, contest_of, contend, cooling, last_of, eligible, by_rank,
  by_merit, symbols_of,
}
use mini_lakehouse.Arbitration.Decide.{contend_all, decide}
use mini_lakehouse.Arbitration.Decide.Inversion.{decide-eq-ok, turn_of}
use mini_lakehouse.Arbitration.Decide.Cooldown.{All-eligible, symbols_kept}
use mini_lakehouse.Arbitration.Decide.Capacity.{
  chosen, share, decide-weight, contend_all-weight, entrants-IsUnique,
}

module _ (t : ℕ) where
  abbrev is_t : ℕ → Bool
  is_t s = s == t

  contest_of-share :
      (s : ℕ) (es : List Entrant)
      → All (λ e. e.candidate.symbol ≡ s) es
      → sum_of (share is_t) (contest_of es) ≤ (if s == t then 1 else 0)
  contest_of-share s [] h = omega arith
  contest_of-share s (e ∷ es) h = let same = h.0 in ground arith

  contend-share :
      (cooldown now : ℕ) (log : List Selection) (s : ℕ) (es : List Entrant)
      → All (λ e. e.candidate.symbol ≡ s) es
      → sum_of (share is_t) (contend cooldown now log s es).1 ≤ (if s == t then 1 else 0)
  contend-share cooldown now log s es h =
      elim (Option-cases (cooling cooldown now (last_of log s))) [
        | inr (d, hot) ↦ rw (hot, contend) (omega arith)
        | inl rested ↦
            rw (rested, contend)
              (contest_of-share s (sorted by_rank (eligible es)) (
                All-sorted (λ e. e.candidate.symbol ≡ s) by_rank (eligible es)
                  (All-eligible (λ e. e.candidate.symbol ≡ s) es h)))
      ]

  module _ (policy_digest : ArbitrationPolicy → ℕ) (digest : BaselineCandidate → ℕ)
      (policy : ArbitrationPolicy) where
    contend_all-absent :
        (now : ℕ) (log : List Selection) (es : List Entrant) (ss : List ℕ)
        → contains t ss ≡ false
        → sum_of (share is_t) (contend_all policy_digest digest policy now log es ss).1 ≡ 0
    unfolding contend_all
    contend_all-absent now log es [] h = refl
    contend_all-absent now log es (s ∷ ss) h =
        let items = keep_if (λ e. e.candidate.symbol == s) es in
        ground (
          arith,
          sum_of-append (share is_t) (contend policy.cooldown_seconds now log s items).1
              (contend_all policy_digest digest policy now log es ss).1,
          contend-share policy.cooldown_seconds now log s items (symbols_kept s es),
          contend_all-absent now log es ss,
        )

    contend_all-share :
        (now : ℕ) (log : List Selection) (es : List Entrant) (ss : List ℕ)
        → IsUnique ss
        → sum_of (share is_t) (contend_all policy_digest digest policy now log es ss).1 ≤ 1
    unfolding contend_all
    contend_all-share now log es [] u = omega arith
    contend_all-share now log es (s ∷ ss) u =
        let items = keep_if (λ e. e.candidate.symbol == s) es in
        let fresh = u.0 in
        let joined =
          sum_of-append (share is_t) (contend policy.cooldown_seconds now log s items).1
            (contend_all policy_digest digest policy now log es ss).1 in
        let first = contend-share policy.cooldown_seconds now log s items (symbols_kept s es) in
        elim (Bool-cases (s == t)) [
          | inl here ↦ ground (arith, contend_all-absent now log es ss)
          | inr there ↦ ground (arith, contend_all-share now log es ss u.1)
        ]

    -- A clock that is decided without an error selects at most one candidate of each symbol.
    pub decide-one_per_symbol :
        (before later : ArbitratorState) (cs : List BaselineCandidate)
        (results : List CandidateArbitration)
        → decide policy_digest digest policy before cs ≡ ok (results, later)
        → sum_of (chosen (λ s. s == t)) results ≤ 1
    decide-one_per_symbol before later cs results h =
        let d = decide-eq-ok policy_digest digest policy before cs results later h in
        let turn = turn_of policy_digest digest policy before d.clock d.entrants cs in
        omega (
          arith,
          decide-weight is_t policy_digest digest policy turn.0 turn.1 d.entrants results
              (entrants-IsUnique policy_digest digest policy before cs d.clock d.entrants d.checked
                d.entered)
              (contend_all-weight is_t policy_digest digest policy d.clock.decision_at
                before.last_selected d.entrants (symbols_of cs))
              d.found,
          sum_of-take (share is_t) policy.maximum_selections_per_clock (sorted by_merit turn.1),
          sum_of-sorted (share is_t) by_merit turn.1,
          contend_all-share d.clock.decision_at before.last_selected d.entrants (symbols_of cs)
              (IsIncreasing-IsUnique _ (sorted_set-IsIncreasing _)),
        )
