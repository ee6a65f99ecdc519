-- ===== src/Witnesses/Contracts.antt =====
-- Proposals, their terms and their payment policy.
use loresuelvo_api.Common.{
  ◌-◌, ◌≡◌, ◌↔◌, refl, arith, none, some, ok, pos, ◌+ℤ◌, is_blank, add_int64, sub_int64, leb_ℤ,
  ltb_ℤ,
}
use loresuelvo_api.ServiceProposal.BookingTerms.{
  calculate, new_booking_policy, new_booking_terms, minimum_booking_lead_time,
}
use loresuelvo_api.ServiceProposal.BookingTerms.Totals.{IsBalanced, new_booking_terms-IsBalanced}
use loresuelvo_api.ServiceProposal.BookingTerms.Pricing.{IsPriced, calculated, calculate-ok_iff}
use loresuelvo_api.ServiceProposal.Proposal.{new_service_proposal}
use loresuelvo_api.ServiceProposal.Proposal.Laws.{new_service_proposal-ok_iff, IsCreatable}
use loresuelvo_api.WorkOrder.State.{scheduled_state}
use loresuelvo_api.Payment.Intent.{Intent}
use loresuelvo_api.Payment.Intent.Creation.{new_booking_deposit_intent, new_service_balance_intent}
use loresuelvo_api.Payment.Intent.Creation.Coherence.{intents_collect_contract}
use loresuelvo_api.Witnesses.{now, scheduled, plumber, client, chat, terms, proposed, order_in}

calculate-ok_iff_example :
    (calculate new_booking_policy (pos 1000000) scheduled ≡ ok terms)
    ↔ IsPriced (pos 1000000) scheduled terms
calculate-ok_iff_example = calculate-ok_iff (pos 1000000) scheduled terms

pub terms_made : calculate new_booking_policy (pos 1000000) scheduled ≡ ok terms
terms_made =
    (calculate-ok_iff (pos 1000000) scheduled terms).1
      (1000000, refl, omega arith, omega arith, omega arith, refl)

new_booking_terms-IsBalanced_example : IsBalanced (calculated 1000000 scheduled)
unfolding new_booking_terms leb_ℤ ltb_ℤ sub_int64 add_int64
new_booking_terms-IsBalanced_example =
    new_booking_terms-IsBalanced "ARS" (pos 1000000) (pos 200000) (pos 500000) (pos 100000)
      (scheduled - minimum_booking_lead_time) (ground arith) refl

intents_collect_contract_example :
    (deposit : Intent) × (balance : Intent) × (new_booking_deposit_intent "d" (pos 5) terms now
      ≡ ok deposit)
    × (new_service_balance_intent "b" (order_in scheduled_state) scheduled ≡ ok balance)
    × (deposit.seller_amount_cents +ℤ deposit.platform_fee_cents ≡ deposit.total_amount_cents)
    × (balance.seller_amount_cents +ℤ balance.platform_fee_cents ≡ balance.total_amount_cents)
    × (deposit.seller_amount_cents +ℤ balance.seller_amount_cents ≡ pos 1000000)
    × (deposit.total_amount_cents +ℤ balance.total_amount_cents ≡ pos 1500000)
unfolding is_blank
intents_collect_contract_example =
    intents_collect_contract proposed (order_in scheduled_state) (pos 1000000) scheduled "d" "b" now
      scheduled terms_made refl (omega arith) (omega arith) refl refl (omega arith) (omega arith)

new_service_proposal-ok_iff_example :
    (new_service_proposal (some plumber) (some client) chat scheduled "leak" terms now none
      ≡ ok (record proposed { id = pos 0 }))
    ↔ (IsCreatable chat scheduled now (pos 60)
        × (record proposed { id = pos 0 } ≡ record proposed { id = pos 0 }))
new_service_proposal-ok_iff_example =
    new_service_proposal-ok_iff (some plumber) (some client) chat scheduled now "leak" terms none
      (record proposed { id = pos 0 })
