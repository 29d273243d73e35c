-- ===== src/Promotion/Gate/Gaps.antt =====
-- The capture gaps that the gate of t0-trading/src/t0_trading/promotion/engine.py counts.
use mini_lakehouse.Common.{
  ℕ, ◌≡◌, refl, sym, ap, inl, inr, ◌==◌, List, [], ◌∷◌, arith, sum_of, sum_of-append, Option-cases,
  find_last, none, some, ok, >>=-eq-ok, ok_injective,
}
use mini_lakehouse.Promotion.WalkForward.{Session, Fold}
use mini_lakehouse.Promotion.Gate.{gaps_in, each_target, session_on, holdouts_of}

-- The capture gaps of a date's session.
abbrev pub gap_on : List Session → ℕ → ℕ
gap_on sessions date = elim (find_last (λ s. s.date == date) sessions) [
  | none ↦ 0
  | some s ↦ s.report.capture_gap_count
]

-- The capture gaps of all sessions of the folds' holdouts.
abbrev pub holdout_gaps : List Session → List Fold → ℕ
holdout_gaps sessions folds = sum_of (λ f. sum_of (gap_on sessions) f.dates.holdout_dates) folds

pub holdouts_of-gaps :
    (sessions : List Session) (folds : List Fold)
    → sum_of (gap_on sessions) (holdouts_of folds) ≡ holdout_gaps sessions folds
holdouts_of-gaps sessions [] = refl
holdouts_of-gaps sessions (f ∷ fs) = omega (
  arith,
  sum_of-append (gap_on sessions) f.dates.holdout_dates (holdouts_of fs),
  holdouts_of-gaps sessions fs,
)

session_on-gap :
    (sessions : List Session) (date : ℕ) (s : Session)
    → session_on sessions date ≡ ok s
    → s.report.capture_gap_count ≡ gap_on sessions date
session_on-gap sessions date s h = elim (Option-cases (find_last (λ x. x.date == date) sessions)) [
  | inl missing ↦ absurd (ground arith)
  | inr (x, found) ↦
      rw (found, gap_on)
        (ap (λ y. y.report.capture_gap_count) (sym (ok_injective (rw (found, session_on) at h))))
]

pub gaps_in-gaps :
    (sessions : List Session) (dates : List ℕ) (held : List Session)
    → each_target (session_on sessions) dates ≡ ok held
    → gaps_in held ≡ sum_of (gap_on sessions) dates
gaps_in-gaps sessions [] held h = ap gaps_in (sym (ok_injective h))
gaps_in-gaps sessions (d ∷ ds) held h =
    let (s, one, h1) = >>=-eq-ok (session_on sessions d) _ h in
    let (rest, others, h2) = >>=-eq-ok (each_target (session_on sessions) ds) _ h1 in
    rw (← ok_injective h2)
      (omega (arith, session_on-gap sessions d s one, gaps_in-gaps sessions ds rest others))
