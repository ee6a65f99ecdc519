-- ===== src/Payment/Intent/Creation/Coherence.antt =====
-- The intents of a contract (internal/domain/payment/intent.go): their amounts against the booking
-- terms of internal/domain/service_proposal/booking_terms.go.
use loresuelvo_api.Common.{
  ◌≡◌, ◌≢◌, refl, sym, ap, ◌∙◌, arith, String, false, some, ok, ℤ, pos, ◌+ℤ◌, ◌≤ℤ◌, leb_ℤ, ltb_ℤ,
  ==ℤ_iff, add_int64, is_blank, add_int64_exact, +ℤ_parts, pos_part, neg_part, none,
}
use loresuelvo_api.Time.{Instant, zero_time}
use loresuelvo_api.ServiceProposal.BookingTerms.{
  BookingTerms, calculate, new_booking_policy, booking_currency_ars,
}
use loresuelvo_api.ServiceProposal.BookingTerms.Totals.{IsBalanced}
use loresuelvo_api.ServiceProposal.BookingTerms.Pricing.{calculate-ok_iff, calculate-IsBalanced}
use loresuelvo_api.ServiceProposal.Proposal.{ServiceProposal}
use loresuelvo_api.WorkOrder.Order.{WorkOrder}
use loresuelvo_api.Payment.Intent.{Intent, Purpose, IntentStatus, zero_terms}
use loresuelvo_api.Payment.Intent.Creation.{new_booking_deposit_intent, new_service_balance_intent}

ars_not_blank : is_blank booking_currency_ars ≡ false
unfolding is_blank
ars_not_blank = refl

-- What the deposit and the balance amount to never overflows.
due_now_exact :
    (terms : BookingTerms)
    → IsBalanced terms
    → add_int64 terms.deposit_cents terms.platform_fee_due_now_cents ≡ terms.amount_due_now_cents
due_now_exact terms b =
    add_int64_exact terms.deposit_cents terms.platform_fee_due_now_cents (omega arith)
      b.fee_now_nonneg
      (rw b.due_now (
        omega (
          arith,
          +ℤ_parts terms.amount_due_now_cents terms.remaining_amount_due_cents,
          +ℤ_parts terms.remaining_service_balance_cents terms.remaining_platform_fee_cents,
          ap pos_part b.contract,
          ap neg_part b.contract,
          ap pos_part b.due_later,
          ap neg_part b.due_later,
        )))
    ∙ b.due_now

due_later_exact :
    (terms : BookingTerms)
    → IsBalanced terms
    → add_int64 terms.remaining_service_balance_cents terms.remaining_platform_fee_cents
      ≡ terms.remaining_amount_due_cents
due_later_exact terms b =
    add_int64_exact terms.remaining_service_balance_cents terms.remaining_platform_fee_cents
      b.service_balance_nonneg b.fee_balance_nonneg
      (rw b.due_later (
        omega (
          arith,
          +ℤ_parts terms.amount_due_now_cents terms.remaining_amount_due_cents,
          +ℤ_parts terms.deposit_cents terms.platform_fee_due_now_cents,
          ap pos_part b.contract,
          ap neg_part b.contract,
          ap pos_part b.due_now,
          ap neg_part b.due_now,
        )))
    ∙ b.due_later

-- The deposit intent of balanced terms.
abbrev deposit_intent : String → ℤ → BookingTerms → Instant → Intent
deposit_intent id proposal_id terms now = record {
  id = id;
  service_proposal_id = proposal_id;
  purpose = Purpose.booking_deposit;
  currency = terms.currency;
  seller_amount_cents = terms.deposit_cents;
  platform_fee_cents = terms.platform_fee_due_now_cents;
  total_amount_cents = terms.amount_due_now_cents;
  status = IntentStatus.requires_checkout;
  checkout_session = none;
  booking_terms = terms;
  created_on = now;
  updated_on = now;
}

abbrev balance_intent : String → ℤ → BookingTerms → Instant → Intent
balance_intent id proposal_id terms now = record {
  id = id;
  service_proposal_id = proposal_id;
  purpose = Purpose.service_balance;
  currency = terms.currency;
  seller_amount_cents = terms.remaining_service_balance_cents;
  platform_fee_cents = terms.remaining_platform_fee_cents;
  total_amount_cents = terms.remaining_amount_due_cents;
  status = IntentStatus.requires_checkout;
  checkout_session = none;
  booking_terms = zero_terms;
  created_on = now;
  updated_on = now;
}

new_booking_deposit_intent_made :
    (id : String) (proposal_id : ℤ) (terms : BookingTerms) (now : Instant)
    → IsBalanced terms
    → is_blank id ≡ false
    → pos 1 ≤ℤ proposal_id
    → now ≢ zero_time
    → new_booking_deposit_intent id proposal_id terms now
      ≡ ok (deposit_intent id proposal_id terms now)
unfolding new_booking_deposit_intent leb_ℤ ltb_ℤ
new_booking_deposit_intent_made id proposal_id terms now b h k z =
    let e : is_blank terms.currency ≡ false = cc (ars_not_blank, b.currency_ars) in
    let d = due_now_exact terms b in
    ground (arith, ==ℤ_iff terms.amount_due_now_cents terms.amount_due_now_cents)

new_service_balance_intent_made :
    (id : String) (order : WorkOrder) (sp : ServiceProposal) (now : Instant)
    → order.service_proposal ≡ some sp
    → IsBalanced sp.booking_terms
    → pos 1 ≤ℤ sp.booking_terms.remaining_service_balance_cents
    → is_blank id ≡ false
    → pos 1 ≤ℤ order.id
    → pos 1 ≤ℤ sp.id
    → now ≢ zero_time
    → new_service_balance_intent id order now ≡ ok (balance_intent id sp.id sp.booking_terms now)
unfolding new_service_balance_intent leb_ℤ ltb_ℤ
new_service_balance_intent_made id order sp now q b s h k l z =
    let e : is_blank sp.booking_terms.currency ≡ false = cc (ars_not_blank, b.currency_ars) in
    let d = due_later_exact sp.booking_terms b in
    ground (
      arith,
      ==ℤ_iff sp.booking_terms.remaining_amount_due_cents
          sp.booking_terms.remaining_amount_due_cents,
    )

-- For a proposal priced by `Calculate` both checkouts can be opened, whatever the price: the deposit
-- intent and, once there is an order of it, the balance intent are created, given ids that are
-- positive or not blank and times that are set. What the provider gets and the platform's fee make up
-- each total, what the provider gets makes up the price, and the two totals make up the contract's.
pub intents_collect_contract :
    (sp : ServiceProposal) (order : WorkOrder) (service : ℤ) (scheduled_on : Instant)
    (deposit_id balance_id : String) (now later : Instant)
    → calculate new_booking_policy service scheduled_on ≡ ok sp.booking_terms
    → order.service_proposal ≡ some sp
    → pos 1 ≤ℤ sp.id
    → pos 1 ≤ℤ order.id
    → is_blank deposit_id ≡ false
    → is_blank balance_id ≡ false
    → now ≢ zero_time
    → later ≢ zero_time
    → (deposit : Intent) × (balance : Intent) × (new_booking_deposit_intent deposit_id sp.id
          sp.booking_terms now
        ≡ ok deposit)
      × (new_service_balance_intent balance_id order later ≡ ok balance)
      × (deposit.seller_amount_cents +ℤ deposit.platform_fee_cents ≡ deposit.total_amount_cents)
      × (balance.seller_amount_cents +ℤ balance.platform_fee_cents ≡ balance.total_amount_cents)
      × (deposit.seller_amount_cents +ℤ balance.seller_amount_cents ≡ service)
      × (deposit.total_amount_cents +ℤ balance.total_amount_cents
          ≡ sp.booking_terms.contract_total_cents)
intents_collect_contract sp order service scheduled_on deposit_id balance_id now later e q k l h h'
      z z' =
    let (n, es, low, high, dl, et) = (calculate-ok_iff service scheduled_on sp.booking_terms).0 e in
    let b = calculate-IsBalanced service scheduled_on e in
    let s : pos 1 ≤ℤ sp.booking_terms.remaining_service_balance_cents = omega (
      arith,
      ap (λ (t : BookingTerms). pos_part t.remaining_service_balance_cents) et,
      ap (λ (t : BookingTerms). neg_part t.remaining_service_balance_cents) et,
    ) in
    (
      deposit_intent deposit_id sp.id sp.booking_terms now,
      balance_intent balance_id sp.id sp.booking_terms later,
      new_booking_deposit_intent_made deposit_id sp.id sp.booking_terms now b h k z,
      new_service_balance_intent_made balance_id order sp later q b s h' l k z',
      b.due_now,
      b.due_later,
      b.service_split ∙ ap (λ (t : BookingTerms). t.service_total_cents) et ∙ sym es,
      b.contract,
    )
