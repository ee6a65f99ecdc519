-- ===== src/Payment/AdminPolicy/Contract.antt =====
-- The intents of a contract before the policy of internal/domain/payment/admin_policy.go, as the reader
-- of internal/adapters/repositories selects their columns.
use loresuelvo_api.Common.{
  ℕ, ◌+◌, ◌-◌, ◌*◌, ◌/◌, ◌≤◌, ◌≡◌, ◌≢◌, refl, sym, subst, ap, arith, String, true, ◌=ₛ◌, ◌==ℤ◌,
  eq_iff, List, [], none, some, ok, ℤ, pos, ◌+ℤ◌, ◌-ℤ◌, ltb_ℤ, leb_ℤ, ==ℤ_iff, sub_int64, add_int64,
  wrap_int64, ◌⊎◌, inl, inr,
}
use loresuelvo_api.Time.{Instant, zero_time}
use loresuelvo_api.ServiceProposal.BookingTerms.{
  BookingTerms, calculate, new_booking_policy, minimum_booking_lead_time,
}
use loresuelvo_api.ServiceProposal.BookingTerms.Totals.{sub_int64_pos}
use loresuelvo_api.ServiceProposal.BookingTerms.Pricing.{calculate-ok_iff, calculated}
use loresuelvo_api.ServiceProposal.Proposal.{ServiceProposal}
use loresuelvo_api.WorkOrder.Order.{WorkOrder}
use loresuelvo_api.Payment.Intent.{Intent, Purpose, IntentStatus}
use loresuelvo_api.Payment.Intent.Creation.{new_booking_deposit_intent, new_service_balance_intent}
use loresuelvo_api.Payment.AdminPolicy.{
  AdminPaymentBreakdown, AdminPaymentTransaction, AdminPayment, ContractAmounts, valid_terms,
  admin_add_amount, contract_amounts, contract_flags,
}

-- The columns of a proposal.
abbrev pub breakdown_of : BookingTerms → AdminPaymentBreakdown
breakdown_of t = record {
  currency = t.currency;
  service_total_cents = t.service_total_cents;
  deposit_cents = t.deposit_cents;
  platform_fee_total_cents = t.platform_fee_total_cents;
  platform_fee_due_now_cents = t.platform_fee_due_now_cents;
  booking_payment_deadline = t.booking_payment_deadline;
  amount_due_now_cents = none;
  remaining_service_balance_cents = none;
  remaining_platform_fee_cents = none;
  remaining_amount_due_cents = none;
}

abbrev pub purpose_text : Purpose → String
purpose_text Purpose.booking_deposit = "booking_deposit"
purpose_text Purpose.service_balance = "service_balance"
purpose_text (Purpose.other s) = s

abbrev pub status_text : IntentStatus → String
status_text IntentStatus.requires_checkout = "requires_checkout"
status_text IntentStatus.checkout_ready = "checkout_ready"
status_text IntentStatus.processing = "processing"
status_text IntentStatus.paid = "paid"
status_text IntentStatus.rejected = "rejected"
status_text IntentStatus.expired = "expired"
status_text (IntentStatus.other s) = s

-- The columns of an intent.
abbrev pub payment_of : Intent → List AdminPaymentTransaction → AdminPayment
payment_of i transactions = record {
  id = i.id;
  purpose = purpose_text i.purpose;
  intent_status = status_text i.status;
  currency = i.currency;
  seller_amount_cents = i.seller_amount_cents;
  platform_fee_cents = i.platform_fee_cents;
  total_amount_cents = i.total_amount_cents;
  transactions = transactions;
}

abbrev amounts_of : BookingTerms → ContractAmounts
amounts_of t = record {
  due_now = t.amount_due_now_cents;
  remaining_service = t.remaining_service_balance_cents;
  remaining_fee = t.remaining_platform_fee_cents;
  remaining = t.remaining_amount_due_cents;
}

admin_add_amount_pos :
    (a b : ℕ) → a + b ≤ 9223372036854775807 → admin_add_amount (pos a) (pos b) ≡ ok (pos (a + b))
unfolding admin_add_amount ltb_ℤ sub_int64 add_int64 wrap_int64 ◌-ℤ◌ ◌+ℤ◌
admin_add_amount_pos a b h = ground arith

abbrev deposit_for : ℕ → ℕ
deposit_for n = (n * 2000 + 5000) / 10000

module _ (n : ℕ) (scheduled_on : Instant) (low : 3 ≤ n) (high : n ≤ 9223372036854275807)
    (z : scheduled_on - minimum_booking_lead_time ≢ zero_time) where
  valid_terms-calculated : valid_terms (breakdown_of (calculated n scheduled_on)) ≡ true
  unfolding valid_terms ltb_ℤ leb_ℤ
  valid_terms-calculated = ground arith

  remaining_same : pos (n - deposit_for n + 400000) ≡ pos (n + 500000 - (deposit_for n + 100000))
  remaining_same = ap pos (omega arith)

  contract_amounts-calculated :
      contract_amounts (breakdown_of (calculated n scheduled_on))
      ≡ ok (some (amounts_of (calculated n scheduled_on)))
  unfolding contract_amounts
  contract_amounts-calculated =
      rw
        (
          valid_terms-calculated,
          sub_int64_pos n (deposit_for n) (omega arith) (omega arith),
          sub_int64_pos 500000 100000 (omega arith) (omega arith),
          admin_add_amount_pos (deposit_for n) 100000 (omega arith),
          admin_add_amount_pos (n - deposit_for n) 400000 (omega arith),
          admin_add_amount_pos n 500000 (omega arith),
          remaining_same,
        )
        refl

same_text : (s : String) → (s =ₛ s) ≡ true
same_text s = (eq_iff s s).1 refl

same_amount : (a : ℤ) → (a ==ℤ a) ≡ true
same_amount a = (==ℤ_iff a a).1 refl

-- The flags that the policy leaves on an intent before it looks at the transactions are none.
own_amounts :
    (t : BookingTerms) (i : Intent) (transactions : List AdminPaymentTransaction)
    → i.currency ≡ t.currency
    → ((i.purpose ≡ Purpose.booking_deposit)
        × (i.seller_amount_cents ≡ t.deposit_cents)
        × (i.platform_fee_cents ≡ t.platform_fee_due_now_cents)
        × (i.total_amount_cents ≡ t.amount_due_now_cents))
      ⊎ ((i.purpose ≡ Purpose.service_balance)
          × (i.seller_amount_cents ≡ t.remaining_service_balance_cents)
          × (i.platform_fee_cents ≡ t.remaining_platform_fee_cents)
          × (i.total_amount_cents ≡ t.remaining_amount_due_cents))
    → contract_flags (breakdown_of t) (some (amounts_of t)) (payment_of i transactions) ≡ ([], true)
unfolding contract_flags
own_amounts t i transactions c (inl (p, s, f, a)) =
    rw
      (
        p,
        c,
        s,
        f,
        a,
        same_text t.currency,
        same_amount t.deposit_cents,
        same_amount t.platform_fee_due_now_cents,
        same_amount t.amount_due_now_cents,
      )
      refl
own_amounts t i transactions c (inr (p, s, f, a)) =
    rw
      (
        p,
        c,
        s,
        f,
        a,
        same_text t.currency,
        same_amount t.remaining_service_balance_cents,
        same_amount t.remaining_platform_fee_cents,
        same_amount t.remaining_amount_due_cents,
      )
      refl

-- An intent that the code creates for a contract.
abbrev pub CreatedFor : ServiceProposal → Intent → Type 0
CreatedFor sp i =
    (id : String) × (now : Instant) × ((new_booking_deposit_intent id sp.id sp.booking_terms now
        ≡ ok i)
      ⊎ ((order : WorkOrder) × (order.service_proposal ≡ some sp)
          × (new_service_balance_intent id order now ≡ ok i)))

CreatedFor-own_amounts :
    (sp : ServiceProposal) (i : Intent) (transactions : List AdminPaymentTransaction)
    → CreatedFor sp i
    → contract_flags
        (breakdown_of sp.booking_terms)
        (some (amounts_of sp.booking_terms))
        (payment_of i transactions)
      ≡ ([], true)
unfolding new_booking_deposit_intent new_service_balance_intent
CreatedFor-own_amounts sp i transactions (id, now, inl e) =
    own_amounts sp.booking_terms i transactions (ground arith)
      (inl (ground arith, ground arith, ground arith, ground arith))
CreatedFor-own_amounts sp i transactions (id, now, inr (order, q, e)) =
    own_amounts sp.booking_terms i transactions (ground arith)
      (inr (ground arith, ground arith, ground arith, ground arith))

-- The intents that the code creates for a proposal priced by `Calculate` never differ from their
-- contract in what operators are shown: the policy takes its terms for valid, computes its amounts
-- without overflow, and finds both the deposit and the balance intent coherent with them.
pub contract_flags-own_intent :
    (sp : ServiceProposal) (service : ℤ) (scheduled_on : Instant) (i : Intent)
    (transactions : List AdminPaymentTransaction)
    → calculate new_booking_policy service scheduled_on ≡ ok sp.booking_terms
    → CreatedFor sp i
    → (amounts : ContractAmounts) × (contract_amounts (breakdown_of sp.booking_terms)
        ≡ ok (some amounts))
      × (contract_flags (breakdown_of sp.booking_terms) (some amounts) (payment_of i transactions)
          ≡ ([], true))
contract_flags-own_intent sp service scheduled_on i transactions e created =
    let (n, _, low, high, z, et) = (calculate-ok_iff service scheduled_on sp.booking_terms).0 e in
    (
      amounts_of sp.booking_terms,
      subst (λ (t : BookingTerms). contract_amounts (breakdown_of t) ≡ ok (some (amounts_of t)))
          (sym et) (contract_amounts-calculated n scheduled_on low high z),
      CreatedFor-own_amounts sp i transactions created,
    )
