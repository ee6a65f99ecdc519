-- ===== src/Witnesses/Operators.antt =====
-- The payments of a proposal as operators see them.
use loresuelvo_api.Work.{clock_now, port, new_id}
use loresuelvo_api.Common.{
  ◌≡◌, refl, arith, [], ◌∷◌, none, some, ok, inl, is_ok, ℤ, pos, true, false, ltb_ℤ, leb_ℤ,
  sub_int64, add_int64, is_blank, ◌==ℤ◌,
}
use loresuelvo_api.Payment.Intent.{Intent, Purpose, IntentStatus}
use loresuelvo_api.Payment.Intent.Creation.{new_booking_deposit_intent}
use loresuelvo_api.Payment.AdminPolicy.{
  AdminPaymentTransaction, AdminPaymentProposal, Projection, ContractAmounts, amount_of,
  contract_amounts, contract_flags,
}
use loresuelvo_api.Payment.AdminPolicy.Scan.{project_admin_payment_proposal}
use loresuelvo_api.Payment.AdminPolicy.Totals.{
  sum_of, distinct_approved, transactions_of, approved_amounts-sum_of,
}
use loresuelvo_api.Payment.AdminPolicy.Contract.{
  breakdown_of, payment_of, contract_flags-own_intent,
}
use loresuelvo_api.Work.Hoare.{Hoare}
use loresuelvo_api.Category.Steps.{Untouched}
use loresuelvo_api.Payment.AdminService.{Reader, AdminPaymentQuery, query_payments}
use loresuelvo_api.Payment.AdminService.Audited.{Accessed, query_payments-Accessed}
use loresuelvo_api.Witnesses.Categories.{tables}
use loresuelvo_api.Witnesses.{now, scheduled, terms, proposed}
use loresuelvo_api.Witnesses.Contracts.{terms_made}

-- One payment that was reported twice.
abbrev transaction : ℤ → AdminPaymentTransaction
transaction id = record {
  id = id;
  processor = "mp";
  external_payment_id = "x1";
  status = "approved";
  currency = "ARS";
  amount_cents = pos 300000;
}

abbrev deposit : Intent
deposit = record {
  id = "d";
  service_proposal_id = pos 5;
  purpose = Purpose.booking_deposit;
  currency = "ARS";
  seller_amount_cents = pos 200000;
  platform_fee_cents = pos 100000;
  total_amount_cents = pos 300000;
  status = IntentStatus.paid;
  checkout_session = none;
  booking_terms = terms;
  created_on = now;
  updated_on = now;
}

abbrev seen_by_operators : AdminPaymentProposal
seen_by_operators = record {
  id = pos 5;
  status = "accepted";
  work_order_id = some (pos 4);
  work_order_status = "scheduled";
  breakdown = breakdown_of terms;
  intents = payment_of deposit (transaction (pos 1) ∷ transaction (pos 2) ∷ []) ∷ [];
}

abbrev projected : Projection
projected = record {
  breakdown = record (breakdown_of terms) {
    amount_due_now_cents = some (pos 300000);
    remaining_service_balance_cents = some (pos 800000);
    remaining_platform_fee_cents = some (pos 400000);
    remaining_amount_due_cents = some (pos 1200000);
  };
  summary = record {
    approved_amounts = record { currency = "ARS"; amount_cents = pos 300000 } ∷ [];
    pending_amount = some (record { currency = "ARS"; amount_cents = pos 1200000 });
    anomalies = [];
  };
  flags = ("d", []) ∷ [];
}

projected_made : project_admin_payment_proposal seen_by_operators ≡ ok projected
unfolding project_admin_payment_proposal ltb_ℤ leb_ℤ sub_int64 add_int64 ◌==ℤ◌
projected_made = refl

approved_amounts-sum_of_example :
    amount_of "ARS" projected.summary.approved_amounts
    ≡ sum_of "ARS" (distinct_approved [] (transactions_of seen_by_operators.intents))
approved_amounts-sum_of_example =
    approved_amounts-sum_of seen_by_operators projected "ARS" (omega arith) projected_made

new_deposit :
    new_booking_deposit_intent "d" (pos 5) terms now
    ≡ ok (record deposit { status = IntentStatus.requires_checkout })
unfolding new_booking_deposit_intent ltb_ℤ leb_ℤ add_int64 is_blank ◌==ℤ◌
new_deposit = refl

contract_flags-own_intent_example :
    (amounts : ContractAmounts) × (contract_amounts (breakdown_of terms) ≡ ok (some amounts))
    × (contract_flags
          (breakdown_of terms)
          (some amounts)
          (payment_of (record deposit { status = IntentStatus.requires_checkout }) [])
        ≡ ([], true))
contract_flags-own_intent_example =
    contract_flags-own_intent proposed (pos 1000000) scheduled
      (record deposit { status = IntentStatus.requires_checkout }) [] terms_made
      ("d", now, inl new_deposit)

-- A reader that finds the payment above.
abbrev reader : Reader
reader = record {
  parse_uuid = λ s. some s;
  find_page = λ q t. ok (
      some (record {
        payments =
            record {
              payment = payment_of deposit [];
              service_proposal_id = pos 5;
              created_on = now;
            }
            ∷ [];
        proposals = seen_by_operators ∷ [];
        has_more = false;
      }));
}

abbrev all_payments : AdminPaymentQuery
all_payments = record {
  payment_intent_id = "";
  external_reference = "";
  external_payment_id = "";
  service_proposal_id = pos 0;
  consumer_email = "";
  provider_email = "";
  purpose = "";
  intent_status = "";
  created_from = none;
  created_to = none;
  limit = pos 20;
  after = none;
}

query_payments-Accessed_example :
    Hoare
      (Untouched tables)
      (query_payments reader all_payments "op" "req-1")
      (λ _. Accessed "req-1" tables)
      (Untouched tables)
query_payments-Accessed_example = query_payments-Accessed reader all_payments "op" "req-1" tables

-- The page is answered, and the access recorded.
page_answered :
    is_ok
      (query_payments reader all_payments "op" "req-1" (record {
        tables = tables;
        sent = tt;
        now = now;
        ticks = [];
        ids = "e" ∷ [];
        faults = [];
      })).1
    ≡ true
unfolding query_payments ltb_ℤ leb_ℤ sub_int64 add_int64 ◌==ℤ◌ clock_now port new_id
page_answered = refl
