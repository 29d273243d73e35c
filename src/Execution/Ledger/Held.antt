-- ===== src/Execution/Ledger/Held.antt =====
-- The shares of a symbol that the ledger of execution/ledger.py holds, available or reserved.
pub mod Entry
pub mod Exit
use mini_lakehouse.Common.{
  ℕ, suc, ◌+◌, ◌≡◌, refl, inl, inr, true, false, List, [], ◌∷◌, ◌++◌, map, arith, Bool-cases, ◌==◌,
  any, contains, IsUnique, IsIncreasing, is_ordered_set_iff, IsIncreasing-IsUnique, sum_of,
  sum_of-append, not, ok, >>-eq-ok, >>=-eq-ok, ok_injective, raise_if-eq-ok, raise_if-not-eq-ok,
  Option, sym, subst, zero, if◌then◌else◌, is_ordered_set,
}
use mini_lakehouse.Common.Int.{ℤ, pos, pos_part, neg_part, ltb_ℤ, ◌+ℤ◌, +ℤ_parts, int_laws}
use mini_lakehouse.Common.Sort.{sorted, sum_of-sorted}
use mini_lakehouse.Common.Decimal.{Decimal}
use mini_lakehouse.Execution.Order.{Digest, Symbol}
use mini_lakehouse.Execution.Resources.{
  PaperResourcePosition, PaperReservation, PaperResourceLedger, symbols, entry_ids, validate_ledger,
  built_reservation, built_ledger,
}
use mini_lakehouse.Execution.Ledger.Inversion.{built_reservation-eq-ok}
use mini_lakehouse.Execution.Ledger.{moved, positions_after, by_entry, opened_of, with_open}

abbrev pub available_of_symbol : Symbol → PaperResourcePosition → ℕ
available_of_symbol s p = if p.symbol == s then p.available_exit_quantity else 0

abbrev pub reserved_of_symbol : Symbol → PaperReservation → ℕ
reserved_of_symbol s r = if r.symbol == s then r.reserved_exit_quantity else 0

abbrev pub available_in : Symbol → List PaperResourcePosition → ℕ
available_in s ps = sum_of (available_of_symbol s) ps

abbrev pub reserved_in : Symbol → List PaperReservation → ℕ
reserved_in s rs = sum_of (reserved_of_symbol s) rs

-- All shares of a symbol that the ledger accounts for.
abbrev pub held : Symbol → PaperResourceLedger → ℕ
held s l = available_in s l.positions + reserved_in s l.reservations

-- What a valid ledger says of its two tuples.
pub record Ordered (l : PaperResourceLedger) : Type 0 where
  pub by_symbol : IsIncreasing (symbols l.positions)
  pub by_id : IsIncreasing (entry_ids l.reservations)

pub validate_ledger-Ordered : (l : PaperResourceLedger) → validate_ledger l ≡ ok tt → Ordered l
unfolding validate_ledger
validate_ledger-Ordered l h =
    let (fields, h1) = >>-eq-ok _ _ h in
    let (first, h2) = >>-eq-ok _ _ h1 in
    let (second, third) = >>-eq-ok _ _ h2 in
    record {
      by_symbol = (is_ordered_set_iff _).0 (raise_if-not-eq-ok _ _ first);
      by_id = (is_ordered_set_iff _).0 (raise_if-not-eq-ok _ _ second);
    }

pub symbols-IsUnique : {l : PaperResourceLedger} → Ordered l → IsUnique (symbols l.positions)
symbols-IsUnique o = IsIncreasing-IsUnique _ o.by_symbol

pub ids-IsUnique : {l : PaperResourceLedger} → Ordered l → IsUnique (entry_ids l.reservations)
ids-IsUnique o = IsIncreasing-IsUnique _ o.by_id

-- One turn of the loop of `_positions`.
abbrev quantity_after : Symbol → ℤ → PaperResourcePosition → ℤ
quantity_after symbol delta p =
    if p.symbol == symbol
    then pos p.available_exit_quantity +ℤ delta
    else pos p.available_exit_quantity

moved-cons :
    (symbol : Symbol) (delta : ℤ) (p : PaperResourcePosition) (ps qs : List PaperResourcePosition)
    → moved symbol delta (p ∷ ps) ≡ ok qs
    → (rest : List PaperResourcePosition) × (moved symbol delta ps ≡ ok rest)
      × (qs
          ≡ record {
            symbol = p.symbol;
            available_exit_quantity = pos_part (quantity_after symbol delta p);
          }
            ∷ rest)
      × (ltb_ℤ (quantity_after symbol delta p) (pos 0) ≡ false)
unfolding moved
moved-cons symbol delta p ps qs h =
    let (plain, h1) = >>-eq-ok _ _ h in
    let (rest, ran, e) = >>=-eq-ok _ _ h1 in
    (rest, ran, sym (ok_injective e), raise_if-eq-ok _ _ plain)

moved_absent :
    (symbol s : Symbol) (delta : ℤ) (ps qs : List PaperResourcePosition)
    → contains symbol (symbols ps) ≡ false
    → moved symbol delta ps ≡ ok qs
    → available_in s qs ≡ available_in s ps
unfolding moved
moved_absent symbol s delta [] qs absent h = rw (← ok_injective h)
moved_absent symbol s delta (p ∷ ps) qs absent h =
    let (rest, ran, e, fits) = moved-cons symbol delta p ps qs h in
    rw e (ground (arith, moved_absent symbol s delta ps rest))

-- The loop of `_positions` moves the shares of its symbol by `delta`, and of no other.
moved_lem :
    (symbol s : Symbol) (delta : ℤ) (ps qs : List PaperResourcePosition)
    → IsUnique (symbols ps)
    → contains symbol (symbols ps) ≡ true
    → moved symbol delta ps ≡ ok qs
    → available_in s qs + (if symbol == s then neg_part delta else 0)
      ≡ available_in s ps + (if symbol == s then pos_part delta else 0)
unfolding ◌+ℤ◌
moved_lem symbol s delta [] qs u present h = cc
moved_lem symbol s delta (p ∷ ps) qs u present h =
    let (rest, ran, e, fits) = moved-cons symbol delta p ps qs h in
    elim (Bool-cases (p.symbol == symbol)) [
      | inl here ↦ rw e (ground (arith, moved_absent symbol s delta ps rest))
      | inr there ↦ rw e (ground (arith, moved_lem symbol s delta ps rest u.1))
    ]

pub positions_after_lem :
    (l : PaperResourceLedger) (symbol s : Symbol) (delta : ℤ) {qs : List PaperResourcePosition}
    → Ordered l
    → positions_after l symbol delta ≡ ok qs
    → available_in s qs + (if symbol == s then neg_part delta else 0)
      ≡ available_in s l.positions + (if symbol == s then pos_part delta else 0)
unfolding positions_after
positions_after_lem l symbol s delta o h =
    let (values, ran, h1) = >>=-eq-ok _ _ h in
    let (known, e) = >>-eq-ok _ _ h1 in
    subst
      (λ zs.
        available_in s zs + (if symbol == s then neg_part delta else 0)
        ≡ available_in s l.positions + (if symbol == s then pos_part delta else 0))
      (ok_injective e)
      (moved_lem symbol s delta l.positions values (symbols-IsUnique o)
        (raise_if-not-eq-ok _ _ known) ran)

-- A reservation that is added in its place adds what it reserves.
pub reserved_in-added :
    (s : Symbol) (rs : List PaperReservation) (r : PaperReservation)
    → reserved_in s (sorted by_entry (rs ++ r ∷ [])) ≡ reserved_in s rs + reserved_of_symbol s r
reserved_in-added s rs r = omega (
  arith,
  sum_of-sorted (reserved_of_symbol s) by_entry (rs ++ r ∷ []),
  sum_of-append (reserved_of_symbol s) rs (r ∷ []),
)

pub with_open_lem :
    (s : Symbol) (rs : List PaperReservation) (digest : Digest) (symbol : Symbol) (n : ℕ)
    (average : Option Decimal) {out : List PaperReservation}
    → with_open rs digest symbol n average ≡ ok out
    → reserved_in s out ≡ reserved_in s rs + (if symbol == s then n else 0)
unfolding with_open
with_open_lem s rs digest symbol zero average h = rw (← ok_injective h) (ground arith)
with_open_lem s rs digest symbol (suc n) average h =
    let (r, built, e) = >>=-eq-ok _ _ h in
    let same = (built_reservation-eq-ok _ _ built).1 in
    rw (← ok_injective e, same) (reserved_in-added s rs _)
