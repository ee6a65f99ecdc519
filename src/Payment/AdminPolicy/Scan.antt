-- ===== src/Payment/AdminPolicy/Scan.antt =====
-- The loops of internal/domain/payment/admin_policy.go over intents and their transactions.
use loresuelvo_api.Common.{
  String, Bool, true, false, not, ◌||◌, ◌&&◌, ◌=ₛ◌, List, [], ◌∷◌, Option, none, some, ok, ◌>>=◌,
  if◌then◌else◌, pos, ltb_ℤ, ◌==ℤ◌, length, ltb, append, text_leb, is_some,
}
use loresuelvo_api.Errors.{Outcome}
use loresuelvo_api.Payment.AdminPolicy.{
  AdminPaymentAmount, AdminPaymentTransaction, AdminPaymentBreakdown, AdminPayment,
  AdminPaymentProposal, Projection, ContractAmounts, admin_add_amount, contains, append_admin_flag,
  append_admin_flags, flag_if, amount_of, put_amount, contract_amounts, with_amounts,
  contract_flags,
}

-- The variables of the inner loop, those of the outer one that it writes included.
pub record IntentScan : Type 0 where
  pub flags : List String
  pub approved_ids : List String
  pub approved_totals : List AdminPaymentAmount
  pub has_valid_approved : Bool
  pub totals : List AdminPaymentAmount
  pub seen : List String

-- `t.Processor + "\x00" + t.ExternalPaymentID`
unfoldable pub key_of : AdminPaymentTransaction → String
unfolding append
key_of t = append t.processor (append "\0" t.external_payment_id)

-- `m[currency] += amount` where that does not overflow, for a key that is not known.
unfoldable pub add_unless :
    Bool → AdminPaymentTransaction → List AdminPaymentAmount → Outcome (List AdminPaymentAmount)
unfolding admin_add_amount put_amount
add_unless true t m = ok m
add_unless false t m = do
  amount ← admin_add_amount (amount_of t.currency m) t.amount_cents
  ok (put_amount t.currency amount m)

-- `set[key] = true`
abbrev pub with_key : String → List String → List String
with_key key keys = if contains keys key then keys else key ∷ keys

abbrev pub is_approved : AdminPaymentTransaction → Bool
is_approved t = t.status =ₛ "approved"

abbrev pub transaction_flags : AdminPayment → AdminPaymentTransaction → List String → List String
transaction_flags i t f =
    flag_if (not (t.amount_cents ==ℤ i.total_amount_cents)) "transaction_amount_mismatch"
      (flag_if (not (t.currency =ₛ i.currency)) "transaction_currency_mismatch" f)

-- The rest of the body, for an approved transaction.
unfoldable pub scan_approved :
    AdminPayment → AdminPaymentTransaction → IntentScan → Outcome IntentScan
unfolding key_of add_unless
scan_approved i t s = do
  approved_totals ← add_unless (contains s.approved_ids (key_of t)) t s.approved_totals
  totals ← add_unless (contains s.seen (key_of t)) t s.totals
  ok (record s {
    approved_ids = with_key (key_of t) s.approved_ids;
    approved_totals = approved_totals;
    has_valid_approved =
        s.has_valid_approved
        || ((t.currency =ₛ i.currency) && (t.amount_cents ==ℤ i.total_amount_cents));
    totals = totals;
    seen = with_key (key_of t) s.seen;
  })

abbrev pub flagged : AdminPayment → AdminPaymentTransaction → IntentScan → IntentScan
flagged i t s = record s { flags = transaction_flags i t s.flags }

unfoldable pub scan_transaction :
    AdminPayment → AdminPaymentTransaction → IntentScan → Outcome IntentScan
unfolding scan_approved append_admin_flag
scan_transaction i t s =
    if is_approved t then scan_approved i t (flagged i t s) else ok (flagged i t s)

unfoldable pub scan_transactions :
    AdminPayment → List AdminPaymentTransaction → IntentScan → Outcome IntentScan
unfolding scan_transaction
scan_transactions i [] s = ok s
scan_transactions i (t ∷ ts) s = scan_transaction i t s >>= scan_transactions i ts

-- The variables of the outer loop.
pub record ProposalScan : Type 0 where
  pub totals : List AdminPaymentAmount
  pub seen : List String
  pub valid_deposit : Bool
  pub anomalies : List String
  pub flags : List (String × List String)

-- The flags that the transactions of an intent leave on it.
abbrev pub closing_flags : AdminPayment → IntentScan → List String
closing_flags i s =
    let is_paid = i.intent_status =ₛ "paid" in
    let f1 =
      flag_if (ltb_ℤ i.total_amount_cents (amount_of i.currency s.approved_totals))
        "approved_amount_exceeds_intent_total" s.flags in
    let f2 = flag_if (ltb 1 (length s.approved_ids)) "multiple_approved_transactions" f1 in
    let f3 =
      flag_if (is_paid && not s.has_valid_approved) "paid_without_matching_approved_transaction"
        f2 in
    flag_if (not is_paid && ltb 0 (length s.approved_ids))
      "approved_transaction_intent_status_mismatch" f3

-- `flags[i.ID] = f`
unfoldable pub put_flags :
    String → List String → List (String × List String) → List (String × List String)
put_flags id f [] = (id, f) ∷ []
put_flags id f ((j, g) ∷ m) = if j =ₛ id then (j, f) ∷ m else (j, g) ∷ put_flags id f m

unfoldable pub scan_intent :
    AdminPaymentBreakdown
    → Option ContractAmounts
    → AdminPayment
    → ProposalScan
    → Outcome ProposalScan
unfolding contract_flags scan_transactions put_flags append_admin_flags append_admin_flag
scan_intent b amounts i p = do
  let (flags, coherent) = contract_flags b amounts i
  s ← scan_transactions i i.transactions (record {
    flags = flags;
    approved_ids = [];
    approved_totals = [];
    has_valid_approved = false;
    totals = p.totals;
    seen = p.seen;
  })
  let f = closing_flags i s
  ok (record {
    totals = s.totals;
    seen = s.seen;
    valid_deposit =
        p.valid_deposit
        || (coherent
            && s.has_valid_approved
            && (i.purpose =ₛ "booking_deposit")
            && (i.intent_status =ₛ "paid"));
    anomalies = append_admin_flags p.anomalies f;
    flags = put_flags i.id f p.flags;
  })

unfoldable pub scan_intents :
    AdminPaymentBreakdown
    → Option ContractAmounts
    → List AdminPayment
    → ProposalScan
    → Outcome ProposalScan
unfolding scan_intent
scan_intents b amounts [] p = ok p
scan_intents b amounts (i ∷ is) p = scan_intent b amounts i p >>= scan_intents b amounts is

-- `sort.Strings`
abbrev pub insert_sorted : String → List String → List String
insert_sorted s [] = s ∷ []
insert_sorted s (t ∷ ts) = if text_leb s t then s ∷ t ∷ ts else t ∷ insert_sorted s ts

unfoldable pub sort_strings : List String → List String
sort_strings [] = []
sort_strings (s ∷ ss) = insert_sorted s (sort_strings ss)

abbrev pub currencies : List AdminPaymentAmount → List String
currencies [] = []
currencies (a ∷ m) = a.currency ∷ currencies m

abbrev pub amounts_for : List String → List AdminPaymentAmount → List AdminPaymentAmount
amounts_for [] m = []
amounts_for (c ∷ cs) m = record { currency = c; amount_cents = amount_of c m } ∷ amounts_for cs m

-- What is still to be paid, of an accepted proposal with a work order and valid terms.
unfoldable pub pending_amount :
    AdminPaymentProposal → Option ContractAmounts → Bool → Option AdminPaymentAmount
pending_amount p none valid_deposit = none
pending_amount p (some a) valid_deposit =
    if not (is_some p.work_order_id && (p.status =ₛ "accepted"))
    then none
    else if p.work_order_status =ₛ "paid"
    then some (record { currency = p.breakdown.currency; amount_cents = pos 0 })
    else if ((p.work_order_status =ₛ "scheduled") || (p.work_order_status =ₛ "awaiting_payment"))
        && valid_deposit
    then some (record { currency = p.breakdown.currency; amount_cents = a.remaining })
    else none

unfoldable pub project_admin_payment_proposal : AdminPaymentProposal → Outcome Projection
unfolding contract_amounts scan_intents sort_strings pending_amount append_admin_flag
project_admin_payment_proposal p = do
  amounts ← contract_amounts p.breakdown
  s ← scan_intents p.breakdown amounts p.intents (record {
    totals = [];
    seen = [];
    valid_deposit = false;
    anomalies = flag_if (not (is_some amounts)) "invalid_contract_terms" [];
    flags = [];
  })
  let pending = pending_amount p amounts s.valid_deposit
  ok (record {
    breakdown = with_amounts p.breakdown amounts;
    summary = record {
      approved_amounts = amounts_for (sort_strings (currencies s.totals)) s.totals;
      pending_amount = pending;
      anomalies = flag_if (not (is_some pending)) "contractual_pending_unavailable" s.anomalies;
    };
    flags = s.flags;
  })
