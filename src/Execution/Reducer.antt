-- ===== src/Execution/Reducer.antt =====
-- `reduce_paper_order` of execution/engine.py: the loop's local variables are `Progress`, and the
-- tests of the loop's body stand in five groups, in the order of the code.
pub mod Step
pub mod Lifecycle
use mathlib.Core.Option
use mini_lakehouse.Common.{
  ℕ, zero, suc, ◌-◌, ◌≡◌, refl, Bool, true, false, not, ◌&&◌, ◌||◌, Option, none, some, List, [],
  ◌∷◌, ltb, leb, ◌==◌, ◌!=◌, is_some, differ, any, contains, length, last?, Result, ok, err, ◌>>=◌,
  ◌>>◌, raise_if, if◌then◌else◌,
}
use mini_lakehouse.Common.Decimal
use mini_lakehouse.Common.Decimal.{Decimal}
use mini_lakehouse.Execution.Order.{
  Digest, Instant, Outcome, history, accepted_with_fill, rejected_with_fill, partial_quantity,
  filled_quantity, average_changed, evidence_missing, average_missing, evidence_mismatch,
  limit_violated, after_expiry, early_expiry, arithmetic, is_buy, same_action, EventType, accepted,
  partially_filled, filled, rejected, cancelled, expired, OrderStatus, created, after, Hashing,
  PaperOrderIntent, PaperFillEvidence, PaperOrderEvent, PaperOrderState, validate_state, is_fill,
}

-- `(evidence.stream_session_id, evidence.receive_sequence, evidence.source_sha256)`
pub record FillIdentity : Type 0 where
  pub session : ℕ
  pub sequence : ℕ
  pub source : Digest

-- `(evidence.observed_at, evidence.stream_session_id, evidence.receive_sequence)`
pub record FillPosition : Type 0 where
  pub observed_at : Instant
  pub session : ℕ
  pub sequence : ℕ

abbrev pub same_identity : FillIdentity → FillIdentity → Bool
same_identity a b = a.session == b.session && a.sequence == b.sequence && a.source == b.source

-- Tuples are compared from the left.
abbrev pub position_le : FillPosition → FillPosition → Bool
position_le a b =
    ltb a.observed_at b.observed_at
    || (a.observed_at == b.observed_at
        && (ltb a.session b.session || (a.session == b.session && leb a.sequence b.sequence)))

pub record Progress : Type 0 where
  pub status : OrderStatus
  pub filled_so_far : ℕ
  pub average : Option Decimal
  pub last_at : Instant
  pub last_sequence : ℕ
  pub hashes : List Digest
  pub adapter_ids : List ℕ
  pub fill_positions : List FillIdentity
  pub last_fill_position : Option FillPosition

-- `status in _TERMINAL`
abbrev pub is_terminal : OrderStatus → Bool
is_terminal created = false
is_terminal (after accepted) = false
is_terminal (after partially_filled) = false
is_terminal (after filled) = true
is_terminal (after rejected) = true
is_terminal (after cancelled) = true
is_terminal (after expired) = true

-- `{"PARTIALLY_FILLED", "FILLED", "CANCELLED", "EXPIRED"}`
abbrev pub leaves_open : EventType → Bool
leaves_open partially_filled = true
leaves_open filled = true
leaves_open cancelled = true
leaves_open expired = true
leaves_open _ = false

-- `event_type in allowed[status]`
abbrev pub is_allowed : OrderStatus → EventType → Bool
is_allowed created accepted = true
is_allowed created rejected = true
is_allowed created expired = true
is_allowed created _ = false
is_allowed (after accepted) t = leaves_open t
is_allowed (after partially_filled) t = leaves_open t
is_allowed (after _) _ = false

abbrev pub identity_of : PaperFillEvidence → FillIdentity
identity_of f = record {
  session = f.stream_session_id;
  sequence = f.receive_sequence;
  source = f.source_sha256;
}

abbrev pub position_of : PaperFillEvidence → FillPosition
position_of f = record {
  observed_at = f.observed_at;
  session = f.stream_session_id;
  sequence = f.receive_sequence;
}

-- `last_fill_position is not None and fill_position <= last_fill_position`
abbrev pub not_later : FillPosition → Option FillPosition → Bool
not_later a none = false
not_later a (some b) = position_le a b

abbrev pub or_arithmetic : Option Decimal → Outcome Decimal
or_arithmetic none = err arithmetic
or_arithmetic (some d) = ok d

-- `event_type in {"ACCEPTED", "PARTIALLY_FILLED", "FILLED"}`
abbrev pub happens_before_expiry : EventType → Bool
happens_before_expiry accepted = true
happens_before_expiry t = is_fill t

abbrev pub is_expiry : EventType → Bool
is_expiry expired = true
is_expiry _ = false

module _ (hashing : Hashing) (intent : PaperOrderIntent) where
  unfoldable pub start : Progress
  start = record {
    status = created;
    filled_so_far = 0;
    average = none;
    last_at = intent.created_at;
    last_sequence = 0;
    hashes = [];
    adapter_ids = [];
    fill_positions = [];
    last_fill_position = none;
  }

  -- The first test of the body: lineage, order, transition and the range of the quantity.
  unfoldable pub check_history : Progress → PaperOrderEvent → Outcome Unit
  check_history p e =
      raise_if
        (e.intent_sha256 != hashing.intent_digest intent
          || contains (hashing.event_digest e) p.hashes
          || contains e.adapter_event_id p.adapter_ids
          || leb e.sequence p.last_sequence
          || ltb e.occurred_at p.last_at
          || is_terminal p.status
          || not (is_allowed p.status e.event_type)
          || ltb e.cumulative_filled_quantity p.filled_so_far
          || ltb intent.quantity e.cumulative_filled_quantity)
        history

  unfoldable pub quantity_of : EventType → ℕ → ℕ → Outcome Unit
  quantity_of accepted so_far now = raise_if (now != 0) accepted_with_fill
  quantity_of rejected so_far now = raise_if (now != 0) rejected_with_fill
  quantity_of partially_filled so_far now =
      raise_if (not (ltb so_far now && ltb now intent.quantity)) partial_quantity
  quantity_of filled so_far now = raise_if (now != intent.quantity) filled_quantity
  quantity_of cancelled so_far now = ok tt
  quantity_of expired so_far now = ok tt

  -- A price worse than the limit.
  unfoldable pub beyond_limit : Decimal → Bool
  beyond_limit price =
      if is_buy intent.action
      then Decimal.lt intent.limit_price price
      else Decimal.lt price intent.limit_price

  unfoldable pub average_beyond_limit : Option Decimal → Bool
  average_beyond_limit none = false
  average_beyond_limit (some price) = beyond_limit price

  -- `(average * filled + evidence.fill_price * increment) / event.cumulative_filled_quantity`
  unfoldable pub blended : ℕ → Option Decimal → ℕ → PaperFillEvidence → Outcome Decimal
  blended zero average now f = ok f.fill_price
  blended (suc n) none now f = err average_missing
  blended (suc n) (some average) now f = or_arithmetic (
      Decimal.div
        (Decimal.add (Decimal.mul average (Decimal.whole (suc n)))
          (Decimal.mul f.fill_price (Decimal.whole (now - suc n))))
        (Decimal.whole now))

  -- The evidence of a fill agrees with the event, and is used once and in order.
  unfoldable pub check_evidence : Progress → PaperOrderEvent → PaperFillEvidence → Outcome Unit
  check_evidence p e f = do
    expected ← blended p.filled_so_far p.average e.cumulative_filled_quantity f
    raise_if
        (f.symbol != intent.symbol
          || not (same_action f.action intent.action)
          || f.filled_quantity != (e.cumulative_filled_quantity - p.filled_so_far)
          || ltb f.observed_at intent.created_at
          || ltb e.occurred_at f.observed_at
          || not (Decimal.same e.average_fill_price (some expected))
          || any (same_identity (identity_of f)) p.fill_positions
          || not_later (position_of f) p.last_fill_position)
        evidence_mismatch
    raise_if (beyond_limit f.fill_price) limit_violated

  -- The quantity that each type of event may report.
  unfoldable pub check_quantity : Progress → PaperOrderEvent → Outcome Unit
  check_quantity p e = quantity_of e.event_type p.filled_so_far e.cumulative_filled_quantity

  unfoldable pub check_average : Progress → PaperOrderEvent → Outcome Unit
  check_average p e = do
    raise_if
        (e.cumulative_filled_quantity == p.filled_so_far
          && not (Decimal.same e.average_fill_price p.average))
        average_changed
    raise_if
        (differ (ltb 0 (e.cumulative_filled_quantity - p.filled_so_far)) (is_some e.fill_evidence))
        evidence_missing

  unfoldable pub check_fill : Progress → PaperOrderEvent → Outcome Unit
  check_fill p e = elim e.fill_evidence [ none ↦ ok tt | some f ↦ check_evidence p e f ]

  unfoldable pub check_limits : PaperOrderEvent → Outcome Unit
  check_limits e = do
    raise_if (average_beyond_limit e.average_fill_price) limit_violated
    raise_if (happens_before_expiry e.event_type && ltb intent.expires_at e.occurred_at)
        after_expiry
    raise_if (is_expiry e.event_type && ltb e.occurred_at intent.expires_at) early_expiry

  unfoldable pub advance : Progress → PaperOrderEvent → Progress
  advance p e = record {
    status = after e.event_type;
    filled_so_far = e.cumulative_filled_quantity;
    average = e.average_fill_price;
    last_at = e.occurred_at;
    last_sequence = e.sequence;
    hashes = hashing.event_digest e ∷ p.hashes;
    adapter_ids = e.adapter_event_id ∷ p.adapter_ids;
    fill_positions = elim e.fill_evidence [
      | none ↦ p.fill_positions
      | some f ↦ identity_of f ∷ p.fill_positions
    ];
    last_fill_position = elim e.fill_evidence [
      | none ↦ p.last_fill_position
      | some f ↦ some (position_of f)
    ];
  }

  unfoldable pub step : Progress → PaperOrderEvent → Outcome Progress
  step p e = do
    check_history p e
    check_quantity p e
    check_average p e
    check_fill p e
    check_limits e
    ok (advance p e)

  unfoldable pub run : Progress → List PaperOrderEvent → Outcome Progress
  run p [] = ok p
  run p (e ∷ es) = step p e >>= λ q. run q es

  unfoldable pub conclude : List PaperOrderEvent → Progress → PaperOrderState
  conclude events p = record {
    intent_sha256 = hashing.intent_digest intent;
    status = p.status;
    cumulative_filled_quantity = p.filled_so_far;
    average_fill_price = p.average;
    event_count = length events;
    last_event_sha256 = Option.map hashing.event_digest (last? events);
  }

  -- The state is built, and so validated, from the last progress.
  unfoldable pub reduce_paper_order : List PaperOrderEvent → Outcome PaperOrderState
  reduce_paper_order events = do
    p ← run start events
    validate_state (conclude events p)
    ok (conclude events p)
