-- ===== src/Promotion/WalkForward/Folds.antt =====
-- The folds of the walk-forward report of t0-trading/src/t0_trading/promotion/engine.py.
use native.Mathlib.Nat.{suc-mul}
use mini_lakehouse.Common.{
  ℕ, zero, suc, ◌+◌, ◌-◌, ◌*◌, ◌≤◌, ◌<◌, ◌≡◌, refl, sym, ap, ◌∙◌, inl, inr, List, [], ◌∷◌, ◌++◌,
  map, arith, ltb, leb, take, drop, length, Bool-cases, leb→gt, ok, ◌>>=◌, >>=-eq-ok, >>-eq-ok,
  raise_if, ok_injective, any, not, is_empty, false,
}
use mini_lakehouse.Common.Sort.{sorted}
use mini_lakehouse.Arbitration.{ArbitrationPolicy}
use mini_lakehouse.Configuration.Policies.{BaselineEvaluation}
use mini_lakehouse.Promotion.WalkForward

module _ (p : BaselineEvaluation) (dates : List ℕ) where
  -- The loop over the folds gives the same folds for any two fuels that are no less than the dates
  -- from its start on, where a holdout has a session.
  pub folds_from_fuel :
      (f g number start : ℕ)
      → 0 < p.holdout_sessions
      → length dates ≤ start + f
      → length dates ≤ start + g
      → WalkForward.folds_from f p dates number start
        ≡ WalkForward.folds_from g p dates number start
  unfolding WalkForward.folds_from
  folds_from_fuel zero zero number start positive h k = refl
  folds_from_fuel zero (suc g) number start positive h k = ground arith
  folds_from_fuel (suc f) zero number start positive h k = ground arith
  folds_from_fuel (suc f) (suc g) number start positive h k =
      ground (arith, folds_from_fuel f g (number + 1) (start + p.holdout_sessions) positive)

-- The holdouts of folds, one after another.
abbrev pub holdouts : List WalkForward.FoldDates → List ℕ
holdouts [] = []
holdouts (f ∷ fs) = f.holdout_dates ++ holdouts fs

suc_plus : (a b : ℕ) → suc a + b ≡ suc (a + b)
suc_plus a b = omega arith

take_empty : (n : ℕ) → ◌≡◌ {A = List ℕ} [] (take n [])
take_empty zero = refl
take_empty (suc n) = refl

drop_empty : (n : ℕ) → drop {A = ℕ} n [] ≡ []
drop_empty zero = refl
drop_empty (suc n) = refl

take-plus : (a b : ℕ) (xs : List ℕ) → take (a + b) xs ≡ take a xs ++ take b (drop a xs)
take-plus zero b xs = ap (λ n. take n xs) (omega arith)
take-plus (suc a) b [] = rw (suc_plus a b) (take_empty b)
take-plus (suc a) b (x ∷ xs) = rw (suc_plus a b) (ap (λ z. x ∷ z) (take-plus a b xs))

drop-plus : (a b : ℕ) (xs : List ℕ) → drop (a + b) xs ≡ drop b (drop a xs)
drop-plus zero b xs = ap (λ n. drop n xs) (omega arith)
drop-plus (suc a) b [] = rw (suc_plus a b) (sym (drop_empty b))
drop-plus (suc a) b (x ∷ xs) = rw (suc_plus a b) (drop-plus a b xs)

module _ (p : BaselineEvaluation) (dates : List ℕ) where
  nothing : (start : ℕ) → ◌≡◌ {A = List ℕ} [] (take (0 * p.holdout_sessions) (drop start dates))
  nothing start = let none_ : 0 * p.holdout_sessions ≡ 0 = omega arith in rw none_ refl

  -- What the folds from a place on cover, and that no further one fits.
  record Covered (start : ℕ) (fs : List WalkForward.FoldDates) : Type 0 where
    covered : holdouts fs ≡ take (length fs * p.holdout_sessions) (drop start dates)
    complete : length dates < start + length fs * p.holdout_sessions + p.holdout_sessions

  one_more :
      (number start : ℕ) (fs : List WalkForward.FoldDates)
      → Covered (start + p.holdout_sessions) fs
      → Covered start (WalkForward.fold_at p dates number start ∷ fs)
  one_more number start fs c =
      let h = p.holdout_sessions in
      let total : suc (length fs) * h ≡ h + length fs * h = omega (arith, suc-mul (length fs) h) in
      let width : start + h - start ≡ h = omega arith in
      record {
        covered =
            rw
              (
                total,
                width,
                c.covered,
                take-plus h (length fs * h) (drop start dates),
                drop-plus start h dates,
              )
              refl;
        complete = let bound = c.complete in rw total (omega arith);
      }

  folds_from-Covered :
      (f number start : ℕ)
      → 0 < p.holdout_sessions
      → length dates ≤ start + f
      → Covered start (WalkForward.folds_from f p dates number start)
  unfolding WalkForward.folds_from
  folds_from-Covered zero number start positive h = record {
    covered = nothing start;
    complete = omega arith;
  }
  folds_from-Covered (suc f) number start positive h =
      elim (Bool-cases (leb (start + p.holdout_sessions) (length dates))) [
        | inl fits ↦ rw fits (
            one_more number start _ (
              folds_from-Covered f (number + 1) (start + p.holdout_sessions) positive
                (omega arith)))
        | inr ends ↦
            let beyond = leb→gt _ _ ends in
            rw ends (record { covered = nothing start; complete = omega arith })
      ]

evaluated-dates :
    (sessions : List WalkForward.Session) (keys : List WalkForward.Key) (f : WalkForward.FoldDates)
    (g : WalkForward.Fold)
    → WalkForward.evaluated sessions keys f ≡ ok g
    → g.dates ≡ f
evaluated-dates sessions keys f g h =
    let (rows, _, h1) =
      >>=-eq-ok
        (WalkForward.each_ok
          (λ k.
            WalkForward.each_ok (WalkForward.row_of sessions k) f.holdout_dates
            >>= WalkForward.combine)
          keys)
        _ h in
    let (_, h2) =
      >>-eq-ok (WalkForward.validate_fold (record { dates = f; evaluations = rows })) _ h1 in
    ap (λ x. x.dates) (sym (ok_injective h2))

each_ok-dates :
    (sessions : List WalkForward.Session) (keys : List WalkForward.Key)
    (fs : List WalkForward.FoldDates) (gs : List WalkForward.Fold)
    → WalkForward.each_ok (WalkForward.evaluated sessions keys) fs ≡ ok gs
    → map (λ g. g.dates) gs ≡ fs
each_ok-dates sessions keys [] gs h = rw (← ok_injective h) refl
each_ok-dates sessions keys (f ∷ fs) gs h =
    let (g, one, h1) = >>=-eq-ok (WalkForward.evaluated sessions keys f) _ h in
    let (rest, more, h2) =
      >>=-eq-ok (WalkForward.each_ok (WalkForward.evaluated sessions keys) fs) _ h1 in
    rw
      (
        ← ok_injective h2,
        evaluated-dates sessions keys f g one,
        each_ok-dates sessions keys fs rest more,
      )
      refl

length-map : {A B : Type 0} (f : A → B) (xs : List A) → length (map f xs) ≡ length xs
length-map f [] = refl
length-map f (x ∷ xs) = ap suc (length-map f xs)

last_holdout-not_empty :
    (folds : List WalkForward.Fold) (last : ℕ)
    → WalkForward.last_holdout folds ≡ ok last
    → is_empty folds ≡ false
last_holdout-not_empty [] last h = cc
last_holdout-not_empty (_ ∷ _) last h = refl

-- A report's folds are those of the loop, and there is one.
pub evaluate_arbitrated_walk_forward-folds :
    (digests : WalkForward.Digests) (sessions : List WalkForward.Session) (p : BaselineEvaluation)
    (a : ArbitrationPolicy) (r : WalkForward.WalkForwardReport)
    → WalkForward.evaluate_arbitrated_walk_forward digests sessions p a ≡ ok r
    → (WalkForward.each_ok
          (WalkForward.evaluated sessions
            (WalkForward.matrix_of (sorted WalkForward.by_date sessions)))
          (WalkForward.fold_dates_of p (WalkForward.dates_of sessions))
        ≡ ok r.folds)
      × (is_empty r.folds ≡ false)
unfolding WalkForward.evaluate_arbitrated_walk_forward
evaluate_arbitrated_walk_forward-folds digests sessions p a r h =
    let ordered = sorted WalkForward.by_date sessions in
    let dates = WalkForward.dates_of sessions in
    let keys = WalkForward.matrix_of ordered in
    let (_, h1) =
      >>-eq-ok
        (raise_if (ltb (length sessions) (WalkForward.required_sessions p))
          WalkForward.too_few_sessions)
        _ h in
    let (_, h2) =
      >>-eq-ok
        (raise_if (any (WalkForward.mismatches (digests.arbitration_digest a) p a) ordered)
          WalkForward.policy_mismatch)
        _ h1 in
    let (_, h3) =
      >>-eq-ok (raise_if (WalkForward.differs_in_lineage ordered) WalkForward.lineage_mismatch) _
        h2 in
    let (_, h4) =
      >>-eq-ok
        (raise_if
          (any (λ s. not (WalkForward.same_keys (WalkForward.keys_of s.report.evaluations) keys))
            ordered)
          WalkForward.matrix_mismatch)
        _ h3 in
    let (folds, built, h5) =
      >>=-eq-ok
        (WalkForward.each_ok (WalkForward.evaluated sessions keys)
          (WalkForward.fold_dates_of p dates))
        _ h4 in
    let (last, ends, h6) = >>=-eq-ok (WalkForward.last_holdout folds) _ h5 in
    let (_, h7) = >>-eq-ok (WalkForward.validate_walk_forward _) _ h6 in
    let same : r.folds ≡ folds = ap (λ x. x.folds) (sym (ok_injective h7)) in
    rw same (built, last_holdout-not_empty folds last ends)

-- In a walk-forward report of holdouts that have sessions, the folds' holdouts, one after another,
-- are the sorted dates after the first development and purge, as many whole holdouts as there are.
pub evaluate_arbitrated_walk_forward-covered :
    (digests : WalkForward.Digests) (sessions : List WalkForward.Session) (p : BaselineEvaluation)
    (a : ArbitrationPolicy) (r : WalkForward.WalkForwardReport)
    → 0 < p.holdout_sessions
    → WalkForward.evaluate_arbitrated_walk_forward digests sessions p a ≡ ok r
    → (holdouts (map (λ f. f.dates) r.folds)
        ≡ take
            (length r.folds * p.holdout_sessions)
            (drop (p.development_sessions + p.purge_sessions) (WalkForward.dates_of sessions)))
      × (length (WalkForward.dates_of sessions)
          < p.development_sessions
            + p.purge_sessions
            + length r.folds * p.holdout_sessions
            + p.holdout_sessions)
evaluate_arbitrated_walk_forward-covered digests sessions p a r positive h =
    let dates = WalkForward.dates_of sessions in
    let keys = WalkForward.matrix_of (sorted WalkForward.by_date sessions) in
    let (built, _) = evaluate_arbitrated_walk_forward-folds digests sessions p a r h in
    let fold_dates =
      each_ok-dates sessions keys (WalkForward.fold_dates_of p dates) r.folds built in
    let facts =
      folds_from-Covered p dates (length dates) 1 (p.development_sessions + p.purge_sessions)
        positive (omega arith) in
    let count = sym (length-map (λ f. f.dates) r.folds) ∙ ap length fold_dates in
    rw (count, fold_dates) (facts.covered, facts.complete)
