-- ===== src/Execution/Order.antt =====
-- The records of execution/model.py that the order reducer and the resource ledger read, with
-- the checks that pydantic runs when one is built. Digests, symbols, versions and session names
-- are numbers: the code only compares them. Instants are microseconds of UTC, dates ordinals.
use mini_lakehouse.Common.{
  Text, is_blank, ℕ, Bool, true, false, not, ◌&&◌, ◌||◌, Option, none, some, ltb, leb, ◌==◌, ◌!=◌,
  is_some, differ, Result, ◌>>◌, raise_if,
}
use mini_lakehouse.Common.Decimal
use mini_lakehouse.Common.Decimal.{Decimal}

abbrev pub Digest : Type 0
Digest = ℕ

abbrev pub Symbol : Type 0
Symbol = ℕ

abbrev pub Instant : Type 0
Instant = ℕ

abbrev pub Date : Type 0
Date = ℕ

-- One constructor for each statement that raises.
pub data ExecutionError : Type 0 where
  -- model.py
  intent_fields intent_timestamps intent_reservation entry_intent exit_intent : ExecutionError
  fill_fields fill_exceeds_liquidity : ExecutionError
  event_fields event_price_pairing event_reason_missing event_reason_unexpected : ExecutionError
  event_evidence_pairing : ExecutionError
  reservation_fields reservation_price_pairing pending_entry open_cycle pending_exit :
      ExecutionError
  ledger_fields ledger_positions ledger_reservations ledger_symbol_absent : ExecutionError
  state_fields state_price_pairing state_without_events state_without_lineage : ExecutionError
  market_fields market_time market_band ask_outside bid_crossed tick_misaligned : ExecutionError
  candidate_lineage no_promotion selection_timing market_lineage account_timing : ExecutionError
  cost_period resource_account plan_reasons plan_status exit_lineage : ExecutionError
  -- engine.py
  policy_mismatch_entry missing_priority policy_mismatch_exit missing_reservation : ExecutionError
  history accepted_with_fill rejected_with_fill partial_quantity filled_quantity : ExecutionError
  average_changed evidence_missing average_missing evidence_mismatch limit_violated : ExecutionError
  after_expiry early_expiry : ExecutionError
  -- ledger.py
  snapshot_date inventory_exceeded symbol_absent entry_refused entry_unmatched : ExecutionError
  cash_exceeded exit_refused exit_unmatched exit_exceeded exit_unpriced : ExecutionError
  -- matching.py
  policy_mismatch time_rewound not_accepted budget_exceeded : ExecutionError
  -- decimal.DivisionByZero
  arithmetic : ExecutionError

abbrev pub Outcome : Type 0 → Type 0
Outcome = Result ExecutionError

pub data Leg : Type 0 where
  entry exit : Leg

pub data Action : Type 0 where
  buy sell : Action

abbrev pub is_entry : Leg → Bool
is_entry entry = true
is_entry exit = false

abbrev pub is_buy : Action → Bool
is_buy buy = true
is_buy sell = false

abbrev pub same_action : Action → Action → Bool
same_action buy a = is_buy a
same_action sell a = not (is_buy a)

-- `PaperEventType`
pub data EventType : Type 0 where
  accepted partially_filled filled rejected cancelled expired : EventType

-- `PaperOrderStatus`: CREATED, or the type of the last event.
pub data OrderStatus : Type 0 where
  created : OrderStatus
  after : EventType → OrderStatus

pub record PaperOrderIntent : Type 0 where
  pub execution_version : ℕ
  pub execution_configuration_sha256 : Digest
  pub request_sha256 : Digest
  pub promotion_report_sha256 : Digest
  pub arbitration_sha256 : Digest
  pub candidate_sha256 : Digest
  pub strategy : ℕ
  pub symbol : Symbol
  pub trade_date : Date
  pub decision_at : Instant
  pub horizon_seconds : ℕ
  pub leg : Leg
  pub action : Action
  pub quantity : ℕ
  pub limit_price : Decimal
  pub priority : ℕ
  pub created_at : Instant
  pub expires_at : Instant
  pub reserved_cash_vnd : Decimal
  pub reserved_exit_quantity : ℕ
  pub market_snapshot_sha256 : Digest
  pub selection_source_sha256 : Digest
  pub resource_ledger_sha256 : Digest
  pub parent_intent_sha256 : Option Digest

-- The bounds of the fields, then `validate_intent`.
unfoldable pub validate_intent : PaperOrderIntent → Outcome Unit
validate_intent i = do
  raise_if
      (ltb i.horizon_seconds 1
        || ltb 86400 i.horizon_seconds
        || ltb i.quantity 1
        || not (Decimal.is_positive i.limit_price)
        || Decimal.is_negative i.reserved_cash_vnd
        || ltb i.reserved_exit_quantity 1)
      intent_fields
  raise_if (not (leb i.decision_at i.created_at && ltb i.created_at i.expires_at)) intent_timestamps
  raise_if (i.reserved_exit_quantity != i.quantity) intent_reservation
  raise_if
      (is_entry i.leg
        && (not (is_buy i.action)
            || is_some i.parent_intent_sha256
            || Decimal.le i.reserved_cash_vnd Decimal.zero_vnd))
      entry_intent
  raise_if
      (not (is_entry i.leg)
        && (is_buy i.action
            || not (is_some i.parent_intent_sha256)
            || not (Decimal.eq i.reserved_cash_vnd Decimal.zero_vnd)))
      exit_intent

pub record PaperFillEvidence : Type 0 where
  pub symbol : Symbol
  pub action : Action
  pub observed_at : Instant
  pub stream_session_id : ℕ
  pub receive_sequence : ℕ
  pub filled_quantity : ℕ
  pub available_quantity : ℕ
  pub fill_price : Decimal
  pub source_sha256 : Digest

-- The bounds of the fields, then `validate_liquidity`.
unfoldable pub validate_fill : PaperFillEvidence → Outcome Unit
validate_fill f = do
  raise_if
      (ltb f.receive_sequence 1
        || ltb f.filled_quantity 1
        || ltb f.available_quantity 1
        || not (Decimal.is_positive f.fill_price))
      fill_fields
  raise_if (ltb f.available_quantity f.filled_quantity) fill_exceeds_liquidity

pub record PaperOrderEvent : Type 0 where
  pub intent_sha256 : Digest
  pub sequence : ℕ
  pub event_type : EventType
  pub occurred_at : Instant
  pub cumulative_filled_quantity : ℕ
  pub average_fill_price : Option Decimal
  pub reason : Option Text
  pub adapter_event_id : ℕ
  pub adapter_evidence_sha256 : Digest
  pub fill_evidence : Option PaperFillEvidence

-- `event_type in {"REJECTED", "CANCELLED", "EXPIRED"}`
abbrev pub ends_unfilled : EventType → Bool
ends_unfilled rejected = true
ends_unfilled cancelled = true
ends_unfilled expired = true
ends_unfilled _ = false

-- `event_type in {"PARTIALLY_FILLED", "FILLED"}`
abbrev pub is_fill : EventType → Bool
is_fill partially_filled = true
is_fill filled = true
is_fill _ = false

abbrev pub positive_or_absent : Option Decimal → Bool
positive_or_absent none = true
positive_or_absent (some p) = Decimal.is_positive p

abbrev pub blank_or_absent : Option Text → Bool
blank_or_absent none = true
blank_or_absent (some t) = is_blank t

-- The bounds of the fields, then `validate_event`.
unfoldable pub validate_event : PaperOrderEvent → Outcome Unit
validate_event e = do
  raise_if (ltb e.sequence 1 || not (positive_or_absent e.average_fill_price)) event_fields
  raise_if (differ (e.cumulative_filled_quantity == 0) (not (is_some e.average_fill_price)))
      event_price_pairing
  raise_if (ends_unfilled e.event_type && blank_or_absent e.reason) event_reason_missing
  raise_if (not (ends_unfilled e.event_type) && is_some e.reason) event_reason_unexpected
  raise_if (differ (is_fill e.event_type) (is_some e.fill_evidence)) event_evidence_pairing

pub record PaperOrderState : Type 0 where
  pub intent_sha256 : Digest
  pub status : OrderStatus
  pub cumulative_filled_quantity : ℕ
  pub average_fill_price : Option Decimal
  pub event_count : ℕ
  pub last_event_sha256 : Option Digest

abbrev pub is_created : OrderStatus → Bool
is_created created = true
is_created (after _) = false

-- The bounds of the fields, then `validate_state`.
unfoldable pub validate_state : PaperOrderState → Outcome Unit
validate_state s = do
  raise_if (not (positive_or_absent s.average_fill_price)) state_fields
  raise_if (differ (s.cumulative_filled_quantity == 0) (not (is_some s.average_fill_price)))
      state_price_pairing
  raise_if (s.event_count == 0 && (not (is_created s.status) || is_some s.last_event_sha256))
      state_without_events
  raise_if (ltb 0 s.event_count && (is_created s.status || not (is_some s.last_event_sha256)))
      state_without_lineage

-- The content hashes of canonical JSON (identity.py), which end in `hashlib`.
pub record Hashing : Type 0 where
  pub intent_digest : PaperOrderIntent → Digest
  pub event_digest : PaperOrderEvent → Digest
