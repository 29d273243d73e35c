-- ===== src/Promotion/Gate/Status.antt =====
-- The statuses of the gate and of its targets in t0-trading/src/t0_trading/promotion/engine.py.
use mini_lakehouse.Common.{
  ℕ, ◌≤◌, ◌≡◌, ◌↔◌, ◌∙◌, refl, sym, inl, inr, Bool, true, false, ◌++◌, List, [], ◌∷◌, arith, ltb,
  any, All, Bool-cases, or_false, ltb→lt, ltb→ge,
}
use mini_lakehouse.Configuration.Policies.{PromotionGateVersion}
use mini_lakehouse.Promotion.{
  PromotionStatus, pending, pass, fail, is_fail, is_pending, PromotionTargetResult, PromotionReason,
}
use mini_lakehouse.Promotion.Gate.{
  gate_status, gap_reasons, when_, pending_reasons, failed_reasons, target_status,
}
use mini_lakehouse.Promotion.Gate.Targets.{IsWithin}

all_pass : (s : PromotionStatus) → is_fail s ≡ false → is_pending s ≡ false → s ≡ pass
all_pass pass h k = refl
all_pass pending h k = cc
all_pass fail h k = cc

quiet→AllPass :
    (ts : List PromotionTargetResult)
    → any (λ t. is_fail t.status) ts ≡ false
    → any (λ t. is_pending t.status) ts ≡ false
    → All (λ t. t.status ≡ pass) ts
quiet→AllPass [] h k = tt
quiet→AllPass (t ∷ ts) h k =
    let (no_fail, h1) = or_false (is_fail t.status) _ h in
    let (no_pending, k1) = or_false (is_pending t.status) _ k in
    (all_pass t.status no_fail no_pending, quiet→AllPass ts h1 k1)

AllPass→no_fail :
    (ts : List PromotionTargetResult)
    → All (λ t. t.status ≡ pass) ts
    → any (λ t. is_fail t.status) ts ≡ false
AllPass→no_fail [] h = refl
AllPass→no_fail (t ∷ ts) h = rw (h.0, AllPass→no_fail ts h.1) refl

AllPass→no_pending :
    (ts : List PromotionTargetResult)
    → All (λ t. t.status ≡ pass) ts
    → any (λ t. is_pending t.status) ts ≡ false
AllPass→no_pending [] h = refl
AllPass→no_pending (t ∷ ts) h = rw (h.0, AllPass→no_pending ts h.1) refl

-- The gaps are within the limit and every target passes.
abbrev pub Clean : PromotionGateVersion → ℕ → List PromotionTargetResult → Type 0
Clean g gaps ts = (gaps ≤ g.maximum_capture_gap_count) × All (λ t. t.status ≡ pass) ts

pub gate_status-pass :
    (g : PromotionGateVersion) (gaps : ℕ) (ts : List PromotionTargetResult)
    → (gate_status (gap_reasons g gaps) ts ≡ pass) ↔ Clean g gaps ts
gate_status-pass g gaps ts = elim (Bool-cases (ltb g.maximum_capture_gap_count gaps)) [
  | inl beyond ↦
      let more = ltb→lt _ _ beyond in
      rw beyond (λ h. cc, λ h. let few = h.0 in absurd (omega arith))
  | inr within ↦
      let few = ltb→ge _ _ within in
      elim (Bool-cases (any (λ t. is_fail t.status) ts)) [
        | inl fails ↦
            rw (within, fails)
              (λ h. cc, λ h. let none_ = AllPass→no_fail ts h.1 in absurd (ground arith))
        | inr no_fail ↦ elim (Bool-cases (any (λ t. is_pending t.status) ts)) [
          | inl waits ↦
              rw (within, no_fail, waits)
                (λ h. cc, λ h. let none_ = AllPass→no_pending ts h.1 in absurd (ground arith))
          | inr no_pending ↦
              rw (within, no_fail, no_pending)
                (λ h. (few, quiet→AllPass ts no_fail no_pending), λ h. refl)
        ]
      ]
]

when-nil :
    (b : Bool) (r : PromotionReason) → ◌≡◌ {A = List PromotionReason} (when_ b r) [] → b ≡ false
when-nil true r h = cc
when-nil false r h = refl

append-nil :
    (xs ys : List PromotionReason)
    → (xs ++ ys) ≡ []
    → ◌≡◌ {A = List PromotionReason} xs [] × (◌≡◌ {A = List PromotionReason} ys [])
append-nil [] ys h = (refl, h)
append-nil (x ∷ xs) ys h = cc

target_status-pass :
    (xs ys : List PromotionReason)
    → target_status xs ys ≡ pass
    → ◌≡◌ {A = List PromotionReason} xs [] × (◌≡◌ {A = List PromotionReason} ys [])
target_status-pass [] [] h = (refl, refl)
target_status-pass (_ ∷ _) [] h = cc
target_status-pass [] (_ ∷ _) h = cc
target_status-pass (_ ∷ _) (_ ∷ _) h = cc

-- The reasons that a result's own numbers give.
abbrev pub waiting_of : PromotionGateVersion → PromotionTargetResult → List PromotionReason
waiting_of g t = pending_reasons g t.selected_count t.worst_fold_net_return_bps

abbrev pub failures_of : PromotionGateVersion → PromotionTargetResult → List PromotionReason
failures_of g t =
    failed_reasons g t.selected_count t.eligible_outcome_count t.outcome_coverage_rate
      t.positive_net_rate t.average_net_return_bps t.worst_fold_net_return_bps

ge→ltb : (a b : ℕ) → b ≤ a → ltb a b ≡ false
ge→ltb a b h = ground arith

module _ (g : PromotionGateVersion) (t : PromotionTargetResult) where
  status→IsWithin : target_status (waiting_of g t) (failures_of g t) ≡ pass → IsWithin g t
  status→IsWithin h = elim (Bool-cases (ltb t.selected_count g.minimum_selected_count)) [
    | inl few ↦ let h1 = rw few at h in cc
    | inr enough ↦
        let (waits, fails) = target_status-pass _ _ (rw enough at h) in
        let (coverage, f1) = append-nil _ _ fails in
        let (positive, f2) = append-nil _ _ f1 in
        let (average, worst) = append-nil _ _ f2 in
        (
          ltb→ge _ _ enough,
          when-nil _ _ coverage,
          when-nil _ _ waits,
          when-nil _ _ positive,
          when-nil _ _ average,
          when-nil _ _ worst,
        )
  ]

  IsWithin→status : IsWithin g t → target_status (waiting_of g t) (failures_of g t) ≡ pass
  IsWithin→status (enough, coverage, worst, positive, average, least) =
      rw (ge→ltb _ _ enough, coverage, worst, positive, average, least) refl

  -- A result's status is the one that its reasons give.
  abbrev pub IsJudged : Type 0
  IsJudged = t.status ≡ target_status (waiting_of g t) (failures_of g t)

  pub judged_iff : IsJudged → (t.status ≡ pass) ↔ IsWithin g t
  judged_iff h = (λ k. status→IsWithin (sym h ∙ k), λ k. h ∙ IsWithin→status k)
