-- ===== src/Payment/World/Repositories.antt =====
-- The repositories of internal/adapters/repositories that the payment service uses, on the tables.
use loresuelvo_api.Common.{
  ◌+◌, String, Bool, true, false, not, ◌||◌, ◌&&◌, ◌=ₛ◌, List, [], ◌∷◌, Option, none, some, ok, err,
  if◌then◌else◌, ltb, ℤ, pos, ◌==ℤ◌, length,
}
use loresuelvo_api.Errors.{Outcome, PaymentError, payment, external}
use loresuelvo_api.Payment.Intent.{Intent, CheckoutSession, IntentStatus, Purpose, zero_terms}
use loresuelvo_api.Payment.Transaction.{Transaction}
use loresuelvo_api.Work.{first, or_error, read, write}
use loresuelvo_api.Payment.World.{SessionRow, Tables, M}

abbrev same_purpose : Purpose → Purpose → Bool
same_purpose Purpose.booking_deposit Purpose.booking_deposit = true
same_purpose Purpose.service_balance Purpose.service_balance = true
same_purpose (Purpose.other a) (Purpose.other b) = a =ₛ b
same_purpose _ _ = false

-- payment_intent_repository.go: `findOne` and its two callers.
abbrev session_of : Option SessionRow → Option CheckoutSession
session_of none = none
session_of (some row) = some row.session

-- The row joined with its session; the booking terms are not stored.
unfoldable pub joined : List SessionRow → Intent → Intent
joined sessions row = record row {
  checkout_session = session_of (first (λ s. s.intent_id =ₛ row.id) sessions);
  booking_terms = zero_terms;
}

abbrev join_found : List SessionRow → Option Intent → Outcome Intent
join_found sessions none = err (payment PaymentError.intent_does_not_exist)
join_found sessions (some row) = ok (joined sessions row)

unfoldable pub select_intent : String → Tables → Outcome Intent
select_intent id t = join_found t.sessions (first (λ i. i.id =ₛ id) t.intents)

unfoldable pub find_intent_by_id : String → M Intent
unfolding select_intent
find_intent_by_id id = read (select_intent id)

-- `ORDER BY created_on DESC LIMIT 1`
abbrev newer : Intent → Option Intent → Intent
newer i none = i
newer i (some j) = if ltb i.created_on j.created_on then j else i

unfoldable pub latest : (Intent → Bool) → List Intent → Option Intent
latest test [] = none
latest test (i ∷ is) = let rest = latest test is in if test i then some (newer i rest) else rest

unfoldable pub select_latest_intent : ℤ → Purpose → Tables → Outcome Intent
unfolding latest
select_latest_intent proposal_id purpose t = join_found t.sessions (
    latest (λ i. (i.service_proposal_id ==ℤ proposal_id) && same_purpose i.purpose purpose)
      t.intents)

unfoldable pub find_latest_by_proposal_id_and_purpose : ℤ → Purpose → M Intent
unfolding select_latest_intent
find_latest_by_proposal_id_and_purpose proposal_id purpose =
    read (select_latest_intent proposal_id purpose)

-- The index `payment_intents_active_per_proposal_and_purpose_unique`.
abbrev is_active : IntentStatus → Bool
is_active IntentStatus.requires_checkout = true
is_active IntentStatus.checkout_ready = true
is_active IntentStatus.processing = true
is_active IntentStatus.paid = true
is_active _ = false

unfoldable pub conflicts : Intent → List Intent → Bool
conflicts i [] = false
conflicts i (row ∷ rows) =
    (is_active i.status
      && is_active row.status
      && not (row.id =ₛ i.id)
      && (row.service_proposal_id ==ℤ i.service_proposal_id)
      && same_purpose row.purpose i.purpose)
    || conflicts i rows

-- `INSERT INTO payment_intents ... ON CONFLICT (id) DO UPDATE`: the time of creation is kept.
unfoldable pub upsert_intent : Intent → List Intent → List Intent
upsert_intent i [] = i ∷ []
upsert_intent i (row ∷ rows) =
    if row.id =ₛ i.id
    then record i { created_on = row.created_on } ∷ rows
    else row ∷ upsert_intent i rows

-- `INSERT INTO payment_checkout_sessions ... ON CONFLICT (processor, external_preference_id)`.
unfoldable pub upsert_session : String → CheckoutSession → List SessionRow → List SessionRow
upsert_session intent_id s [] = record { intent_id = intent_id; session = s } ∷ []
upsert_session intent_id s (row ∷ rows) =
    if row.session.external_id =ₛ s.external_id
    then record row { session = record s { created_on = row.session.created_on } } ∷ rows
    else row ∷ upsert_session intent_id s rows

abbrev save_session : String → Option CheckoutSession → List SessionRow → List SessionRow
save_session id none rows = rows
save_session id (some s) rows = upsert_session id s rows

unfoldable pub put_intent : Intent → Tables → Outcome Tables
unfolding conflicts upsert_intent upsert_session
put_intent i t =
    if conflicts i t.intents
    then err (external "unique violation")
    else ok (record t {
      intents = upsert_intent i t.intents;
      sessions = save_session i.id i.checkout_session t.sessions;
    })

-- `Save` is a transaction of its own; `SaveIntent` is the same writes in the unit of work's.
unfoldable pub save_intent : Intent → M (Unit {0})
unfolding put_intent
save_intent i = write (put_intent i)

-- payment_transaction_repository.go
unfoldable pub same_payment : String → String → Transaction → Bool
same_payment processor external_id t =
    (t.processor =ₛ processor) && (t.external_payment_id =ₛ external_id)

unfoldable pub select_transaction : String → String → Tables → Outcome Transaction
unfolding same_payment
select_transaction processor external_id t =
    or_error (payment PaymentError.transaction_does_not_exist)
      (first (same_payment processor external_id) t.transactions)

unfoldable pub find_transaction_by_external_id : String → String → M Transaction
unfolding select_transaction
find_transaction_by_external_id processor external_id =
    read (select_transaction processor external_id)

-- The sequence that gives out ids is at the number of rows.
abbrev pub next_id {ℓ} : {A : Type ℓ} → List A → ℤ
next_id rows = pos (length rows + 1)

unfoldable pub upsert_transaction : ℤ → Transaction → List Transaction → List Transaction
unfolding same_payment
upsert_transaction fresh x [] = record x { id = fresh } ∷ []
upsert_transaction fresh x (row ∷ rows) =
    if same_payment x.processor x.external_payment_id row
    then record x { id = row.id; created_on = row.created_on } ∷ rows
    else row ∷ upsert_transaction fresh x rows

unfoldable pub put_transaction : Transaction → Tables → Outcome Tables
unfolding upsert_transaction
put_transaction x t =
    ok (record t { transactions = upsert_transaction (next_id t.transactions) x t.transactions })

unfoldable pub save_transaction : Transaction → M (Unit {0})
unfolding put_transaction
save_transaction x = write (put_transaction x)
