-- ===== src/Payment/Service/Notifications/Redelivery.antt =====
-- A notification delivered again (internal/domain/payment/service.go).
use loresuelvo_api.Common.{
  ℕ, String, Bool, true, false, ◌≡◌, refl, ◌⊎◌, inl, inr, Option, none, some, ok, err, Result,
  Result-cases, Option-cases, ap, ◌∙◌, sym, is_ok, is_some, List, [], ◌∷◌, ℤ, arith, eq_iff, subst,
  leb_ℤ, pos,
}
use loresuelvo_api.Common
use loresuelvo_api.Errors.{Outcome}
use loresuelvo_api.Notification.{Notification}
use loresuelvo_api.ServiceProposal.Proposal.{ServiceProposal}
use loresuelvo_api.WorkOrder.Order.{WorkOrder}
use loresuelvo_api.Work.{bind_result, first, or_error}
use loresuelvo_api.Payment.Intent.{Intent}
use loresuelvo_api.Payment.Transaction.{Transaction}
use loresuelvo_api.Payment.VerifiedPayment.{VerifiedPayment, payment_of}
use loresuelvo_api.Payment.World.{Tables, World}
use loresuelvo_api.Work.Runs.{then_put, paired, port-cases}
use loresuelvo_api.Payment.World.Repositories.{
  next_id, same_payment, upsert_transaction, select_transaction, put_transaction, put_intent,
  find_transaction_by_external_id,
}
use loresuelvo_api.Payment.World.Orders.{put_proposal, put_order, put_notification}
use loresuelvo_api.Payment.Service.{Gateway}
use loresuelvo_api.Payment.Service.Notifications.{
  commit_booking, apply_verified_payment, unless_found,
}
use loresuelvo_api.Payment.Service.Notifications.Effects.{
  booking_writes, noted, commit_booking-Commits,
}

first-upsert_transaction :
    (fresh : ℤ) (x : Transaction) (rows : List Transaction)
    → is_some
        (first (same_payment x.processor x.external_payment_id) (upsert_transaction fresh x rows))
      ≡ true
unfolding upsert_transaction same_payment
first-upsert_transaction fresh x [] =
    ground
      (arith, eq_iff x.processor x.processor, eq_iff x.external_payment_id x.external_payment_id)
first-upsert_transaction fresh x (row ∷ rows) = ground (
  arith,
  first-upsert_transaction fresh x rows,
  eq_iff x.processor x.processor,
  eq_iff x.external_payment_id x.external_payment_id,
)

put_intent-transactions :
    (i : Intent) (t t' : Tables) → put_intent i t ≡ ok t' → t'.transactions ≡ t.transactions
unfolding put_intent
put_intent-transactions i t t' q = ground arith

put_proposal-transactions :
    (p : ServiceProposal) (t t' : Tables)
    → put_proposal p t ≡ ok t'
    → t'.transactions ≡ t.transactions
unfolding put_proposal
put_proposal-transactions p t t' q = ground arith

put_order-transactions :
    (o : WorkOrder) (t t' : Tables) → put_order o t ≡ ok t' → t'.transactions ≡ t.transactions
unfolding put_order
put_order-transactions o t t' q = ground arith

-- With the transaction of the payment in the tables, a notification changes no table and sends
-- nothing, whatever fails meanwhile.
pub apply_verified_payment_known :
    (g : Gateway) (v : VerifiedPayment) (w : World) (x : Transaction)
    → select_transaction g.provider (payment_of v).id w.tables ≡ ok x
    → ((apply_verified_payment g v w).0.tables ≡ w.tables)
      × ((apply_verified_payment g v w).0.sent ≡ w.sent)
unfolding apply_verified_payment find_transaction_by_external_id unless_found
apply_verified_payment_known g v w x h =
    let search = select_transaction g.provider (payment_of v).id in
    let found =
      λ (p : World × Outcome (Unit {0})). bind_result p.0 p.1 (λ _ u. (u, search u.tables)) in
    let branch = λ (p : World × Outcome Transaction). unless_found g v p.1 p.0 in
    elim (port-cases w) [
      | inl (fs, q) ↦
          let r = ap branch (ap found q ∙ ap (λ a. (record w { faults = fs }, a)) h) in
          (ap (λ p. p.0.tables) r, ap (λ p. p.0.sent) r)
      | inr (fs, e, q) ↦
          let r = ap branch (ap found q) in (ap (λ p. p.0.tables) r, ap (λ p. p.0.sent) r)
    ]

-- A write and then more, which together end well.
sequence-ok {ℓ} :
    {A : Type ℓ} (o : Outcome Tables) (g : Tables → Outcome A) (a : A)
    → Common.◌>>=◌ (paired o) (λ r. g r.0) ≡ ok a
    → (t : Tables) × (o ≡ ok t) × (g t ≡ ok a)
sequence-ok (ok t) g a h = (t, refl, h)
sequence-ok (err e) g a h = absurd (ground arith)

then_put-ok {ℓ} :
    {A : Type ℓ} (f : Tables → Outcome Tables) (g : Tables → Outcome A) (t : Tables) (a : A)
    → then_put f g t ≡ ok a
    → (t' : Tables) × (f t ≡ ok t') × (g t' ≡ ok a)
then_put-ok f g t a h = sequence-ok (f t) g a h

abbrev Records : Transaction → Tables → Tables → Type 0
Records x t t' = t'.transactions ≡ upsert_transaction (next_id t.transactions) x t.transactions

booking_writes-Records :
    (x : Transaction) (i : Intent) (p : ServiceProposal) (o : WorkOrder) (n : Notification)
    (t : Tables) (r : Tables × Notification)
    → booking_writes x i p o n t ≡ ok r
    → Records x t r.0
unfolding booking_writes put_transaction put_notification
booking_writes-Records x i p o n t r h =
    let orders = then_put (put_order o) (noted n) in
    let proposals = then_put (put_proposal p) orders in
    let intents = then_put (put_intent i) proposals in
    let (t1, h1, k1) = then_put-ok (put_transaction x) intents t r h in
    let (t2, h2, k2) = then_put-ok (put_intent i) proposals t1 r k1 in
    let (t3, h3, k3) = then_put-ok (put_proposal p) orders t2 r k2 in
    let (t4, h4, k4) = then_put-ok (put_order o) (noted n) t3 r k3 in
    let same =
      put_order-transactions o t3 t4 h4
      ∙ put_proposal-transactions p t2 t3 h3
      ∙ put_intent-transactions i t1 t2 h2 in
    ground (arith, same)

Records-select_transaction :
    (x : Transaction) (t t' : Tables)
    → Records x t t'
    → (y : Transaction) × (select_transaction x.processor x.external_payment_id t' ≡ ok y)
unfolding select_transaction
Records-select_transaction x t t' h =
    let found = first-upsert_transaction (next_id t.transactions) x t.transactions in
    let test = same_payment x.processor x.external_payment_id in
    elim (Option-cases (first test t'.transactions)) [
      | inl q ↦ absurd (ground (arith, ap (first test) h, found, q))
      | inr (y, q) ↦ (y, ap (or_error _) q)
    ]

-- Once the unit of work of an approved booking has ended well, a later notification of that payment
-- changes no table and sends nothing.
pub commit_booking-apply_verified_payment :
    (g : Gateway) (v : VerifiedPayment) (x : Transaction) (i : Intent) (p : ServiceProposal)
    (o : WorkOrder) (n saved : Notification) (w w' u : World)
    → commit_booking x i p o n w ≡ (w', ok saved)
    → x.processor ≡ g.provider
    → x.external_payment_id ≡ (payment_of v).id
    → u.tables ≡ w'.tables
    → ((apply_verified_payment g v u).0.tables ≡ u.tables)
      × ((apply_verified_payment g v u).0.sent ≡ u.sent)
commit_booking-apply_verified_payment g v x i p o n saved w w' u q hp he hu =
    elim (commit_booking-Commits x i p o n w) [
      | inl (t, a, w'', h, q', th, sh) ↦
          let tables = hu ∙ ap (λ r. r.0.tables) (sym q ∙ q') ∙ th in
          let (y, found) =
            Records-select_transaction x w.tables t
              (booking_writes-Records x i p o n w.tables (t, a) h) in
          apply_verified_payment_known g v u y (cc (hp, he, tables, found))
      | inr (e, w'', q', th, sh) ↦ absurd (ground (arith, ap (λ r. r.1) (sym q ∙ q')))
    ]
