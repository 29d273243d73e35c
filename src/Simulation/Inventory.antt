-- ===== src/Simulation/Inventory.antt =====
-- The dictionaries of simulation/engine.py, and the shares that its open cycles bought.
use mini_lakehouse.Common.{
  ℕ, ◌+◌, ◌≡◌, ◌≢◌, refl, sym, ap, ◌∙◌, Bool, false, some, List, [], ◌∷◌, map, arith, subst, ◌==◌,
  ◌!=◌, any, find, keep_if, contains, IsUnique, sum_of, ok, ok_injective, Bool-cases, inl, inr,
  if◌then◌else◌, ==→eq,
}
use mini_lakehouse.Common.Removal.{match-holds, sum_of-removed}
use mini_lakehouse.Controls.{AccountPosition}
use mini_lakehouse.Simulation.Cycle.{
  Position, OpenCycle, position_of, with_position, initial_of, symbol_of, started_position,
}

pub position_of-symbol :
    (x : ℕ) (ps : List Position) (p : Position) → position_of x ps ≡ ok p → p.symbol ≡ x
unfolding position_of
position_of-symbol x [] p h = cc
position_of-symbol x (q ∷ ps) p h = elim (Bool-cases (q.symbol == x)) [
  | inl here ↦
      let same = ok_injective (rw here at h) in ap (λ z. z.symbol) (sym same) ∙ ==→eq _ _ here
  | inr later ↦ position_of-symbol x ps p (rw later at h)
]

pub with_position-same :
    (q : Position) (ps : List Position) (p : Position)
    → position_of q.symbol ps ≡ ok p
    → position_of q.symbol (with_position q ps) ≡ ok q
unfolding position_of with_position
with_position-same q [] p h = cc
with_position-same q (r ∷ ps) p h = elim (Bool-cases (r.symbol == q.symbol)) [
  | inl here ↦ rw here (ground arith)
  | inr later ↦ let rest = with_position-same q ps p (rw later at h) in rw (later, later) rest
]

pub with_position-other :
    (q : Position) (ps : List Position) (y : ℕ)
    → y ≢ q.symbol
    → position_of y (with_position q ps) ≡ position_of y ps
unfolding position_of with_position
with_position-other q [] y h = refl
with_position-other q (r ∷ ps) y h = elim (Bool-cases (r.symbol == q.symbol)) [
  | inl here ↦ rw here (ground arith)
  | inr later ↦ rw later (ground (arith, with_position-other q ps y h))
]

pub started-position_of :
    (x : ℕ) (accounts : List AccountPosition) (a : AccountPosition)
    → initial_of x accounts ≡ ok a
    → position_of x (map started_position accounts) ≡ ok (started_position a)
unfolding position_of initial_of
started-position_of x [] a h = cc
started-position_of x (b ∷ rest) a h = elim (Bool-cases (b.symbol == x)) [
  | inl here ↦ rw here (ap (λ z. ok (started_position z)) (ok_injective (rw here at h)))
  | inr later ↦ rw later (started-position_of x rest a (rw later at h))
]

find-keep_if :
    (t : OpenCycle → Bool) (os : List OpenCycle) (o : OpenCycle)
    → find t os ≡ some o
    → (rest : List OpenCycle) × (keep_if t os ≡ o ∷ rest)
find-keep_if t [] o h = cc
find-keep_if t (x ∷ xs) o h = elim (Bool-cases (t x)) [
  | inl here ↦ (keep_if t xs, rw here (ap (λ z. z ∷ keep_if t xs) (cc)))
  | inr later ↦ let (rest, e) = find-keep_if t xs o (rw later at h) in (rest, rw later e)
]

-- The shares that the open cycles of a symbol bought.
abbrev pub bought_of : ℕ → OpenCycle → ℕ
bought_of x o = if symbol_of o == x then o.proposal.outcome.order_quantity else 0

abbrev pub opened : ℕ → List OpenCycle → ℕ
opened x os = sum_of (bought_of x) os

pub opened-removed :
    (x y : ℕ) (os : List OpenCycle) (o : OpenCycle)
    → find (λ c. symbol_of c == x) os ≡ some o
    → IsUnique (map symbol_of os)
    → (symbol_of o ≡ x)
      × (opened y (keep_if (λ c. symbol_of c != x) os) + bought_of y o ≡ opened y os)
opened-removed x y os o h u =
    let (rest, kept) = find-keep_if (λ c. symbol_of c == x) os o h in
    let same = ==→eq _ _ (match-holds (λ c. symbol_of c == x) os kept) in
    (
      same,
      subst (λ z. opened y (keep_if (λ c. symbol_of c != z) os) + bought_of y o ≡ opened y os) same
          (sum_of-removed symbol_of (bought_of y) (λ c. symbol_of c == x) os kept u),
    )

pub keep_if-IsUnique :
    (x : ℕ) (os : List OpenCycle)
    → IsUnique (map symbol_of os)
    → IsUnique (map symbol_of (keep_if (λ c. symbol_of c != x) os))
keep_if-IsUnique x [] u = tt
keep_if-IsUnique x (o ∷ os) u = elim (Bool-cases (symbol_of o != x)) [
  | inl kept ↦ rw kept (keep_if-lacks x (symbol_of o) os u.0, keep_if-IsUnique x os u.1)
  | inr dropped ↦ rw dropped (keep_if-IsUnique x os u.1)
]
  where
    keep_if-lacks :
        (x y : ℕ) (os : List OpenCycle)
        → contains y (map symbol_of os) ≡ false
        → contains y (map symbol_of (keep_if (λ c. symbol_of c != x) os)) ≡ false
    keep_if-lacks x y [] h = refl
    keep_if-lacks x y (o ∷ os) h = ground (arith, keep_if-lacks x y os)

pub not_busy :
    (x : ℕ) (os : List OpenCycle)
    → any (λ o. symbol_of o == x) os ≡ false
    → contains x (map symbol_of os) ≡ false
not_busy x [] h = refl
not_busy x (o ∷ os) h = ground (arith, not_busy x os)
