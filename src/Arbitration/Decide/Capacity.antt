-- ===== src/Arbitration/Decide/Capacity.antt =====
-- How many candidates a clock of arbitration/engine.py selects.
use mini_lakehouse.Common.{
  ℕ, suc, ◌+◌, ◌≤◌, ◌≡◌, refl, sym, ◌∙◌, ap, subst, inl, inr, Bool, true, Option, none, some, List,
  [], ◌∷◌, ◌++◌, map, arith, Option-cases, ◌==◌, ◌&&◌, IsUnique, unique_length,
  unique_length-IsUnique, length, sum_of, sum_of-append, drop, ok, >>=-eq-ok, ok_injective,
  if◌then◌else◌, keep_if,
}
use mini_lakehouse.Common.Sort.{sorted, sum_of-sorted}
use mini_lakehouse.Common.Writes.{length-take, one_key}
use mini_lakehouse.Candidate.{BaselineCandidate, name_id}
use mini_lakehouse.Arbitration.{
  ArbitrationPolicy, CandidateArbitration, RejectionReason, lower_strategy_priority, clock_capacity,
  symbol_cooldown,
}
use mini_lakehouse.Arbitration.Engine.{
  DecisionClock, ArbitratorState, Selection, Entrant, Contest, Decision, reject_all, screened,
  barred, contend, cooling, last_of, crown, pass_over, by_place, by_merit, symbols_of, eligible,
  rule_for,
}
use mini_lakehouse.Arbitration.Decide.{
  is_selected_by, look_up, look_up_all, enter_all, contend_all, check_clock, chosen_of, verdicts,
  decide,
}
use mini_lakehouse.Arbitration.Decide.Inversion.{decide-eq-ok, turn_of}

-- 1 for a selected candidate of a symbol that is counted.
abbrev pub chosen : (ℕ → Bool) → CandidateArbitration → ℕ
chosen counted a = if a.is_selected && counted a.symbol then 1 else 0

module _ (counted : ℕ → Bool) where
  abbrev weight : Decision → ℕ
  weight d = if is_selected_by d.verdict && counted d.entrant.candidate.symbol then 1 else 0

  abbrev weight_read : Option Decision → ℕ
  weight_read none = 0
  weight_read (some d) = weight d

  abbrev pub share : Contest → ℕ
  share c = if counted c.winner.candidate.symbol then 1 else 0

  reject_all-weight :
      (r : RejectionReason) (l : Option ℕ) (es : List Entrant)
      → sum_of weight (reject_all r l es) ≡ 0
  reject_all-weight r l [] = refl
  reject_all-weight r l (e ∷ es) = omega (arith, reject_all-weight r l es)

  screened-weight : (es : List Entrant) → sum_of weight (screened es) ≡ 0
  screened-weight [] = refl
  screened-weight (e ∷ es) = elim (Option-cases (barred e)) [
    | inl free ↦ rw (free, screened) (screened-weight es)
    | inr (r, stopped) ↦ rw (stopped, screened) (omega (arith, screened-weight es))
  ]

  crown-weight : (n : ℕ) (cs : List Contest) → sum_of weight (crown n cs) ≡ sum_of share cs
  crown-weight n [] = refl
  crown-weight n (c ∷ cs) =
      let lost = reject_all lower_strategy_priority (some c.winner.digest) c.others in
      ground (
        arith,
        sum_of-append weight lost (crown (n + 1) cs),
        reject_all-weight lower_strategy_priority (some c.winner.digest) c.others,
        crown-weight (n + 1) cs,
      )

  pass_over-weight : (cs : List Contest) → sum_of weight (pass_over cs) ≡ 0
  pass_over-weight [] = refl
  pass_over-weight (c ∷ cs) = ground (
    arith,
    sum_of-append weight (reject_all clock_capacity none (c.winner ∷ c.others)) (pass_over cs),
    reject_all-weight clock_capacity none (c.winner ∷ c.others),
    pass_over-weight cs,
  )

  -- Of the reads of distinct keys, those that find a selection are no more than the selections.
  reads-weight :
      (ds : List Decision) (es : List Entrant)
      → IsUnique (map (λ e. e.digest) es)
      → sum_of (λ e. weight_read (look_up ds e.digest)) es ≤ sum_of weight ds
  reads-weight [] es u = omega (arith, nothing es)
    where
      nothing : (fs : List Entrant) → sum_of (λ e. weight_read (look_up [] e.digest)) fs ≡ 0
      nothing [] = refl
      nothing (f ∷ fs) = omega (arith, nothing fs)
  reads-weight (d ∷ ds) es u =
      omega (arith, split es, reads-weight ds es u, one_key (λ e. e.digest) d.key (weight d) es u)
    where
      split :
          (fs : List Entrant)
          → sum_of (λ e. weight_read (look_up (d ∷ ds) e.digest)) fs
            ≤ sum_of (λ e. weight_read (look_up ds e.digest)) fs
              + sum_of (λ e. if d.key == e.digest then weight d else 0) fs
      split [] = omega arith
      split (f ∷ fs) = ground (arith, split fs)

  look_up_all-weight :
      (policy_digest : ArbitrationPolicy → ℕ) (digest : BaselineCandidate → ℕ)
      (policy : ArbitrationPolicy) (ds : List Decision) (es : List Entrant)
      (results : List CandidateArbitration)
      → look_up_all policy_digest digest policy ds es ≡ ok results
      → sum_of (chosen counted) results ≡ sum_of (λ e. weight_read (look_up ds e.digest)) es
  unfolding look_up_all
  look_up_all-weight policy_digest digest policy ds [] results h = rw (← ok_injective h)
  look_up_all-weight policy_digest digest policy ds (e ∷ es) results h =
      let (rest, found, h1) = >>=-eq-ok (look_up_all policy_digest digest policy ds es) _ h in
      elim (Option-cases (look_up ds e.digest)) [
        | inl missing ↦ absurd (ground arith)
        | inr (d, hit) ↦
            ground (arith, look_up_all-weight policy_digest digest policy ds es rest found)
      ]

  -- What `decide` selects is what it crowns.
  pub decide-weight :
      (policy_digest : ArbitrationPolicy → ℕ) (digest : BaselineCandidate → ℕ)
      (policy : ArbitrationPolicy) (ds : List Decision) (contests : List Contest)
      (es : List Entrant) (results : List CandidateArbitration)
      → IsUnique (map (λ e. e.digest) es)
      → sum_of weight ds ≡ 0
      → look_up_all policy_digest digest policy
          (verdicts policy_digest digest policy ds contests)
          (sorted by_place es)
        ≡ ok results
      → sum_of (chosen counted) results
        ≤ sum_of share (chosen_of policy_digest digest policy contests)
  decide-weight policy_digest digest policy ds contests es results u none_yet h =
      let all = verdicts policy_digest digest policy ds contests in
      let crowned = chosen_of policy_digest digest policy contests in
      let passed = drop policy.maximum_selections_per_clock (sorted by_merit contests) in
      omega (
        arith,
        look_up_all-weight policy_digest digest policy all (sorted by_place es) results h,
        sum_of-sorted (λ e. weight_read (look_up all e.digest)) by_place es,
        reads-weight all es u,
        sum_of-append weight ds (crown 0 crowned ++ pass_over passed),
        sum_of-append weight (crown 0 crowned) (pass_over passed),
        crown-weight 0 crowned,
        pass_over-weight passed,
      )

  contend-weight :
      (cooldown now : ℕ) (log : List Selection) (s : ℕ) (es : List Entrant)
      → sum_of weight (contend cooldown now log s es).0 ≡ 0
  contend-weight cooldown now log s es =
      elim (Option-cases (cooling cooldown now (last_of log s))) [
        | inl rested ↦ rw (rested, contend) (screened-weight es)
        | inr (d, hot) ↦
            rw (hot, contend)
              (omega (
                arith,
                sum_of-append weight (screened es)
                    (reject_all symbol_cooldown (some d) (eligible es)),
                screened-weight es,
                reject_all-weight symbol_cooldown (some d) (eligible es),
              ))
      ]

  pub contend_all-weight :
      (policy_digest : ArbitrationPolicy → ℕ) (digest : BaselineCandidate → ℕ)
      (policy : ArbitrationPolicy) (now : ℕ) (log : List Selection) (es : List Entrant)
      (ss : List ℕ)
      → sum_of weight (contend_all policy_digest digest policy now log es ss).0 ≡ 0
  unfolding contend_all
  contend_all-weight policy_digest digest policy now log es [] = refl
  contend_all-weight policy_digest digest policy now log es (s ∷ ss) =
      let items = keep_if (λ e. e.candidate.symbol == s) es in
      omega (
        arith,
        sum_of-append weight (contend policy.cooldown_seconds now log s items).0
            (contend_all policy_digest digest policy now log es ss).0,
        contend-weight policy.cooldown_seconds now log s items,
        contend_all-weight policy_digest digest policy now log es ss,
      )

every_share : (cs : List Contest) → sum_of (share (λ _. true)) cs ≡ length cs
every_share [] = refl
every_share (c ∷ cs) = omega (arith, every_share cs)

module _ (policy_digest : ArbitrationPolicy → ℕ) (digest : BaselineCandidate → ℕ)
    (policy : ArbitrationPolicy) where
  enter_all-digests :
      (cs : List BaselineCandidate) (es : List Entrant)
      → enter_all policy_digest digest policy cs ≡ ok es
      → map (λ e. e.digest) es ≡ map digest cs
  unfolding enter_all
  enter_all-digests [] es h = rw (← ok_injective h)
  enter_all-digests (c ∷ cs) es h =
      let (rest, entered, h1) = >>=-eq-ok (enter_all policy_digest digest policy cs) _ h in
      elim (Option-cases (rule_for policy.rules (name_id c.strategy))) [
        | inl missing ↦ absurd (ground arith)
        | inr (r, hit) ↦ ground (arith, enter_all-digests cs rest entered)
      ]

  check_clock_unique :
      (before : ArbitratorState) (cs : List BaselineCandidate) (clock : DecisionClock)
      → check_clock policy_digest digest policy before cs clock ≡ ok tt
      → unique_length (map digest cs) ≡ length cs
  unfolding check_clock
  check_clock_unique before cs clock h = ground arith

  length-map :
      (f : BaselineCandidate → ℕ) (cs : List BaselineCandidate) → length (map f cs) ≡ length cs
  length-map f [] = refl
  length-map f (c ∷ cs) = ap suc (length-map f cs)

  pub entrants-IsUnique :
      (before : ArbitratorState) (cs : List BaselineCandidate) (clock : DecisionClock)
      (es : List Entrant)
      → check_clock policy_digest digest policy before cs clock ≡ ok tt
      → enter_all policy_digest digest policy cs ≡ ok es
      → IsUnique (map (λ e. e.digest) es)
  entrants-IsUnique before cs clock es checked entered =
      subst IsUnique (sym (enter_all-digests cs es entered)) (
        unique_length-IsUnique (map digest cs)
          (check_clock_unique before cs clock checked ∙ sym (length-map digest cs)))

  -- A clock that is decided without an error selects no more candidates than the policy allows.
  pub decide-le-maximum :
      (before later : ArbitratorState) (cs : List BaselineCandidate)
      (results : List CandidateArbitration)
      → decide policy_digest digest policy before cs ≡ ok (results, later)
      → sum_of (chosen (λ _. true)) results ≤ policy.maximum_selections_per_clock
  decide-le-maximum before later cs results h =
      let d = decide-eq-ok policy_digest digest policy before cs results later h in
      let turn = turn_of policy_digest digest policy before d.clock d.entrants cs in
      omega (
        arith,
        decide-weight (λ _. true) policy_digest digest policy turn.0 turn.1 d.entrants results
            (entrants-IsUnique before cs d.clock d.entrants d.checked d.entered)
            (contend_all-weight (λ _. true) policy_digest digest policy d.clock.decision_at
              before.last_selected d.entrants (symbols_of cs))
            d.found,
        every_share (chosen_of policy_digest digest policy turn.1),
        length-take policy.maximum_selections_per_clock (sorted by_merit turn.1),
      )
