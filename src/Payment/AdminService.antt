-- ===== src/Payment/AdminService.antt =====
-- internal/domain/payment/{admin_query,admin_service}.go: the pages of payments that operators read. The
-- reader of the page is an argument; the operators and the audit trail are those of Category/Store.
pub mod Audited
use Prim.Native.Char.{code}
use loresuelvo_api.Common.{
  ℕ, String, Bool, true, false, not, ◌||◌, ◌&&◌, ◌==◌, ◌=ₛ◌, List, [], ◌∷◌, Option, none, some, ok,
  err, fail_if, ltb, if◌then◌else◌, ℤ, pos, ltb_ℤ, ◌==ℤ◌, is_empty, nil_uuid, map_err,
}
use loresuelvo_api.Common
use loresuelvo_api.Errors.{Error, Outcome, PaymentError, payment, message, wrapped}
use loresuelvo_api.Time.{Instant, is_zero_time, before}
use loresuelvo_api.Work.{◌>>=◌, ◌>>◌, lift, pure, on_error, change, clock_now, new_id, or_error}
use loresuelvo_api.Audit.{byte_len}
use loresuelvo_api.Audit.Event.{Action, EventResult, EventParams, new_event}
use loresuelvo_api.Category.Store.{Tables, Call, find_operator_id_by_auth_id, save_audit_event}
use loresuelvo_api.Payment.AdminPolicy.{
  AdminPayment, AdminPaymentBreakdown, AdminPaymentSummary, AdminPaymentProposal, Projection,
  contains,
}
use loresuelvo_api.Payment.AdminPolicy.Scan.{project_admin_payment_proposal}

abbrev pub max_admin_payment_limit : ℤ
max_admin_payment_limit = pos 100

-- read_model/admin_payment.go
pub record AdminPaymentPosition : Type 0 where
  pub created_on : Instant
  pub id : String

pub record AdminPaymentQuery : Type 0 where
  pub payment_intent_id : String
  pub external_reference : String
  pub external_payment_id : String
  pub service_proposal_id : ℤ
  pub consumer_email : String
  pub provider_email : String
  pub purpose : String
  pub intent_status : String
  pub created_from : Option Instant
  pub created_to : Option Instant
  pub limit : ℤ
  pub after : Option AdminPaymentPosition

-- A row of the snapshot, and the same with what the service adds to it.
pub record PaymentRow : Type 0 where
  pub payment : AdminPayment
  pub service_proposal_id : ℤ
  pub created_on : Instant

pub record ShownPayment : Type 0 where
  pub row : PaymentRow
  pub breakdown : AdminPaymentBreakdown
  pub summary : AdminPaymentSummary
  pub anomalies : List String

pub record AdminPaymentSnapshot : Type 0 where
  pub payments : List PaymentRow
  pub proposals : List AdminPaymentProposal
  pub has_more : Bool

pub record AdminPaymentPage : Type 0 where
  pub payments : List ShownPayment
  pub limit : ℤ
  pub next : Option AdminPaymentPosition

abbrev pub invalid_query : Error
invalid_query = payment PaymentError.invalid_admin_payment_query

-- A control character, as the loop over the runes tests it.
unfoldable pub has_control_rune : String → Bool
has_control_rune String.[] = false
has_control_rune (String.◌∷◌ c s) = ltb (code c) 32 || code c == 127 || has_control_rune s

abbrev pub is_bad_text : String → Bool
is_bad_text s = ltb 255 (byte_len s) || has_control_rune s

abbrev pub known_statuses : List String
known_statuses =
    "" ∷ "requires_checkout" ∷ "checkout_ready" ∷ "processing" ∷ "paid" ∷ "rejected" ∷ "expired"
    ∷ "cancelled" ∷ "refunded" ∷ "disputed" ∷ "payment_mismatch" ∷ []

abbrev pub is_zero_given : Option Instant → Bool
is_zero_given none = false
is_zero_given (some t) = is_zero_time t

abbrev pub not_before : Option Instant → Option Instant → Bool
not_before (some from) (some to) = not (before from to)
not_before _ _ = false

-- `uuid.Parse` answers the canonical form of the id that it reads.
module _ (parse_uuid : String → Option String) where
  abbrev pub is_canonical : String → Option String → Bool
  is_canonical s none = false
  is_canonical s (some id) = not (id =ₛ nil_uuid) && (id =ₛ s)

  abbrev pub valid_admin_payment_id : String → Bool
  valid_admin_payment_id s = is_canonical s (parse_uuid s)

  abbrev pub is_bad_id : String → Bool
  is_bad_id s = not (is_empty s) && not (valid_admin_payment_id s)

  abbrev pub is_bad_position : Option AdminPaymentPosition → Bool
  is_bad_position none = false
  is_bad_position (some p) = is_zero_time p.created_on || not (valid_admin_payment_id p.id)

  unfoldable pub validate : AdminPaymentQuery → Outcome (Unit {0})
  unfolding byte_len has_control_rune
  validate q =
      fail_if
        (ltb_ℤ q.limit (pos 1)
          || ltb_ℤ max_admin_payment_limit q.limit
          || ltb_ℤ q.service_proposal_id (pos 0)
          || ltb_ℤ (pos 2147483647) q.service_proposal_id
          || is_bad_id q.payment_intent_id
          || is_bad_id q.external_reference
          || not (contains ("" ∷ "booking_deposit" ∷ "service_balance" ∷ []) q.purpose)
          || not (contains known_statuses q.intent_status)
          || is_bad_text q.consumer_email
          || is_bad_text q.provider_email
          || is_bad_text q.external_payment_id
          || is_zero_given q.created_from
          || is_zero_given q.created_to
          || not_before q.created_from q.created_to
          || is_bad_position q.after)
        invalid_query

-- The map from proposals to projections; a later entry stands in front of an earlier one.
unfoldable pub project_all :
    List AdminPaymentProposal → List (ℤ × Projection) → Outcome (List (ℤ × Projection))
unfolding project_admin_payment_proposal
project_all [] projected = ok projected
project_all (p ∷ ps) projected =
    Common.◌>>=◌
      (map_err (wrapped "projecting administrative payments") (project_admin_payment_proposal p))
      (λ r. project_all ps ((p.id, r) ∷ projected))

abbrev pub projection_of : ℤ → List (ℤ × Projection) → Option Projection
projection_of id [] = none
projection_of id ((j, r) ∷ m) = if j ==ℤ id then some r else projection_of id m

abbrev pub flags_of : String → List (String × List String) → List String
flags_of id [] = []
flags_of id ((j, f) ∷ m) = if j =ₛ id then f else flags_of id m

abbrev pub shown : PaymentRow → Option Projection → Outcome ShownPayment
shown row none = err (message "projecting administrative payments: missing proposal")
shown row (some r) = ok (record {
  row = row;
  breakdown = r.breakdown;
  summary = r.summary;
  anomalies = flags_of row.payment.id r.flags;
})

unfoldable pub show_all : List PaymentRow → List (ℤ × Projection) → Outcome (List ShownPayment)
show_all [] projected = ok []
show_all (row ∷ rows) projected =
    Common.◌>>=◌ (shown row (projection_of row.service_proposal_id projected))
      (λ s. Common.◌>>=◌ (show_all rows projected) (λ rest. ok (s ∷ rest)))

-- The position after the last payment of the page.
abbrev pub last_position : List ShownPayment → Option AdminPaymentPosition
last_position [] = none
last_position (s ∷ []) = some (record { created_on = s.row.created_on; id = s.row.payment.id })
last_position (s ∷ t ∷ rest) = last_position (t ∷ rest)

unfoldable pub page_of : AdminPaymentQuery → AdminPaymentSnapshot → Outcome AdminPaymentPage
unfolding project_all show_all
page_of q snapshot = Common.◌>>=◌ (project_all snapshot.proposals []) (λ projected.
    Common.◌>>=◌ (show_all snapshot.payments projected) (λ payments. ok (record {
      payments = payments;
      limit = q.limit;
      next = if snapshot.has_more then last_position payments else none;
    })))

abbrev pub access_params : ℤ → String → String → Instant → EventParams
access_params operator_id correlation_id id at = record {
  id = id;
  operator_id = operator_id;
  action = Action.access;
  resource_type = "payment";
  resource_id = "";
  occurred_on = at;
  result = EventResult.prepared;
  correlation_id = correlation_id;
  reason = none;
  state_change = none;
  conversation_id = none;
}

-- What the service is given: `uuid.Parse` and the reader of a page.
pub record Reader : Type 0 where
  pub parse_uuid : String → Option String
  pub find_page : AdminPaymentQuery → Tables → Outcome (Option AdminPaymentSnapshot)

abbrev pub read_page :
    Reader → AdminPaymentQuery → Tables → Outcome (Tables × Option AdminPaymentSnapshot)
read_page reader q t = Common.◌>>=◌ (reader.find_page q t) (λ found. ok (t, found))

-- The event that is saved before the page is returned.
unfoldable pub audit_access : String → String → Call (Unit {0})
unfolding find_operator_id_by_auth_id new_event save_audit_event
audit_access subject correlation = do
  operator ←
      on_error (wrapped "resolving payment access operator") (find_operator_id_by_auth_id subject)
  id ← new_id
  at ← clock_now
  event ← lift (
      map_err (wrapped "preparing payment access audit")
        (new_event (access_params operator correlation id at)))
  on_error (wrapped "saving payment access audit") (save_audit_event event)

-- `AdminPaymentService.Query`
unfoldable pub query_payments : Reader → AdminPaymentQuery → String → String → Call AdminPaymentPage
unfolding validate page_of audit_access
query_payments reader q subject correlation = do
  lift (validate reader.parse_uuid q)
  found ← on_error (wrapped "reading administrative payments") (change (read_page reader q))
  snapshot ← lift (or_error (message "reading administrative payments: missing snapshot") found)
  page ← lift (page_of q snapshot)
  audit_access subject correlation
  pure page
