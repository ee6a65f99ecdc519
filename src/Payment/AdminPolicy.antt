-- ===== src/Payment/AdminPolicy.antt =====
-- internal/domain/payment/admin_policy.go: what operators are shown of the payments of a proposal. The
-- map of a loop is the list of its entries; a text that is absent from a map of amounts has zero.
pub mod Scan
pub mod Shown
pub mod Totals
pub mod Contract
use loresuelvo_api.Common.{
  String, Bool, true, false, not, ◌||◌, ◌&&◌, ◌=ₛ◌, List, [], ◌∷◌, ◌++◌, Option, none, some, ok,
  err, ◌>>=◌, ◌>>◌, fail_if, if◌then◌else◌, ℤ, pos, leb_ℤ, ltb_ℤ, ◌==ℤ◌, add_int64, sub_int64,
  max_int64, text_leb,
}
use loresuelvo_api.Errors.{Outcome, PaymentError, payment}
use loresuelvo_api.Time.{Instant, is_zero_time}

-- read_model/admin_payment.go
pub record AdminPaymentAmount : Type 0 where
  pub currency : String
  pub amount_cents : ℤ

pub record AdminPaymentTransaction : Type 0 where
  pub id : ℤ
  pub processor : String
  pub external_payment_id : String
  pub status : String
  pub currency : String
  pub amount_cents : ℤ

pub record AdminPaymentBreakdown : Type 0 where
  pub currency : String
  pub service_total_cents : ℤ
  pub deposit_cents : ℤ
  pub platform_fee_total_cents : ℤ
  pub platform_fee_due_now_cents : ℤ
  pub booking_payment_deadline : Instant
  pub amount_due_now_cents : Option ℤ
  pub remaining_service_balance_cents : Option ℤ
  pub remaining_platform_fee_cents : Option ℤ
  pub remaining_amount_due_cents : Option ℤ

pub record AdminPaymentSummary : Type 0 where
  pub approved_amounts : List AdminPaymentAmount
  pub pending_amount : Option AdminPaymentAmount
  pub anomalies : List String

-- What the policy reads of an `AdminPayment`.
pub record AdminPayment : Type 0 where
  pub id : String
  pub purpose : String
  pub intent_status : String
  pub currency : String
  pub seller_amount_cents : ℤ
  pub platform_fee_cents : ℤ
  pub total_amount_cents : ℤ
  pub transactions : List AdminPaymentTransaction

pub record AdminPaymentProposal : Type 0 where
  pub id : ℤ
  pub status : String
  pub work_order_id : Option ℤ
  pub work_order_status : String
  pub breakdown : AdminPaymentBreakdown
  pub intents : List AdminPayment

-- What `projectAdminPaymentProposal` returns; `flags` are the entries of its map.
pub record Projection : Type 0 where
  pub breakdown : AdminPaymentBreakdown
  pub summary : AdminPaymentSummary
  pub flags : List (String × List String)

unfoldable pub admin_add_amount : ℤ → ℤ → Outcome ℤ
admin_add_amount a b = do
  fail_if (ltb_ℤ a (pos 0) || ltb_ℤ b (pos 0) || ltb_ℤ (sub_int64 max_int64 b) a)
      (payment PaymentError.admin_payment_amount_overflow)
  ok (add_int64 a b)

abbrev pub contains : List String → String → Bool
contains [] s = false
contains (t ∷ ts) s = (t =ₛ s) || contains ts s

unfoldable pub append_admin_flag : List String → String → List String
append_admin_flag flags flag = if contains flags flag then flags else flags ++ flag ∷ []

unfoldable pub append_admin_flags : List String → List String → List String
unfolding append_admin_flag
append_admin_flags flags [] = flags
append_admin_flags flags (a ∷ f) = append_admin_flags (append_admin_flag flags a) f

-- `if test { f = appendAdminFlag(f, flag) }`
abbrev pub flag_if : Bool → String → List String → List String
flag_if true flag flags = append_admin_flag flags flag
flag_if false flag flags = flags

-- The value of a map of amounts, and its entry.
abbrev pub amount_of : String → List AdminPaymentAmount → ℤ
amount_of c [] = pos 0
amount_of c (a ∷ m) = if a.currency =ₛ c then a.amount_cents else amount_of c m

unfoldable pub put_amount : String → ℤ → List AdminPaymentAmount → List AdminPaymentAmount
put_amount c n [] = record { currency = c; amount_cents = n } ∷ []
put_amount c n (a ∷ m) =
    if a.currency =ₛ c then record a { amount_cents = n } ∷ m else a ∷ put_amount c n m

unfoldable pub valid_terms : AdminPaymentBreakdown → Bool
valid_terms b =
    (b.currency =ₛ "ARS")
    && ltb_ℤ (pos 0) b.service_total_cents
    && ltb_ℤ (pos 0) b.deposit_cents
    && leb_ℤ b.deposit_cents b.service_total_cents
    && leb_ℤ (pos 0) b.platform_fee_total_cents
    && leb_ℤ (pos 0) b.platform_fee_due_now_cents
    && leb_ℤ b.platform_fee_due_now_cents b.platform_fee_total_cents
    && not (is_zero_time b.booking_payment_deadline)

-- What the contract asks for, where its terms are valid.
pub record ContractAmounts : Type 0 where
  pub due_now : ℤ
  pub remaining_service : ℤ
  pub remaining_fee : ℤ
  pub remaining : ℤ

unfoldable pub contract_amounts : AdminPaymentBreakdown → Outcome (Option ContractAmounts)
unfolding valid_terms admin_add_amount
contract_amounts b = if not (valid_terms b) then ok none else (do
  due ← admin_add_amount b.deposit_cents b.platform_fee_due_now_cents
  let remaining_service = sub_int64 b.service_total_cents b.deposit_cents
  let remaining_fee = sub_int64 b.platform_fee_total_cents b.platform_fee_due_now_cents
  remaining ← admin_add_amount remaining_service remaining_fee
  _ ← admin_add_amount b.service_total_cents b.platform_fee_total_cents
  ok (
      some (record {
        due_now = due;
        remaining_service = remaining_service;
        remaining_fee = remaining_fee;
        remaining = remaining;
      })))

abbrev pub with_amounts : AdminPaymentBreakdown → Option ContractAmounts → AdminPaymentBreakdown
with_amounts b none = b
with_amounts b (some a) = record b {
  amount_due_now_cents = some a.due_now;
  remaining_service_balance_cents = some a.remaining_service;
  remaining_platform_fee_cents = some a.remaining_fee;
  remaining_amount_due_cents = some a.remaining;
}

-- The amounts that the contract asks for in an intent: seller, fee and total.
abbrev pub expected_amounts : AdminPaymentBreakdown → ContractAmounts → String → ℤ × ℤ × ℤ
expected_amounts b a purpose =
    if purpose =ₛ "service_balance"
    then (a.remaining_service, a.remaining_fee, a.remaining)
    else (b.deposit_cents, b.platform_fee_due_now_cents, a.due_now)

abbrev pub has_amounts : AdminPayment → ℤ × ℤ × ℤ → Bool
has_amounts i (seller, fee, total) =
    (i.seller_amount_cents ==ℤ seller)
    && (i.platform_fee_cents ==ℤ fee)
    && (i.total_amount_cents ==ℤ total)

-- The flags of an intent against the contract, and whether it is coherent.
unfoldable pub contract_flags :
    AdminPaymentBreakdown → Option ContractAmounts → AdminPayment → List String × Bool
unfolding append_admin_flag
contract_flags b none i = ([], false)
contract_flags b (some a) i =
    let coherent = has_amounts i (expected_amounts b a i.purpose) in
    let f = flag_if (not (i.currency =ₛ b.currency)) "intent_currency_mismatch" [] in
    (
      flag_if (not coherent) "intent_contract_amount_mismatch" f,
      (i.currency =ₛ b.currency) && coherent,
    )
