-- ===== src/Payment/AdminService/Audited.antt =====
-- The audit trail of internal/domain/payment/admin_service.go.
use loresuelvo_api.Common.{◌≡◌, ap, String, ok, ℤ, map_err, map_err-eq-ok, Result-cases, inl, inr}
use loresuelvo_api.Errors.{wrapped, message}
use loresuelvo_api.Time.{Instant}
use loresuelvo_api.Work.{lift, pure, on_error, change, clock_now, new_id, or_error}
use loresuelvo_api.Work.Hoare.{
  Hoare, bind-Hoare, lift-Hoare, lift-keeps, lift-knows, on_error-Hoare, change-Hoare,
  clock_now-keeps, new_id-keeps, failures, Change,
}
use loresuelvo_api.Audit.Event.{Action, Event, new_event}
use loresuelvo_api.Category.Store.{
  Tables, find_operator_id_by_auth_id, select_operator, save_audit_event, insert_event,
}
use loresuelvo_api.Category.Steps.{with_event, Untouched, new_event-same, select_operator-keeps}
use loresuelvo_api.Payment.AdminService.{
  Reader, AdminPaymentQuery, validate, read_page, page_of, access_params, audit_access,
  query_payments,
}

-- One event tells of an access to payments, and nothing else has changed.
pub record Accessed (correlation : String) (t t' : Tables) : Type 0 where
  pub event : Event
  pub written : t' ≡ with_event event t
  pub access : event.action ≡ Action.access
  pub about : event.resource_type ≡ "payment"
  pub correlated : event.correlation_id ≡ correlation

save_access-Accessed :
    (correlation id : String) (t : Tables) (operator : ℤ) (at : Instant) (event : Event)
    → Hoare
        (λ u.
          Untouched t u
          × (map_err
                (wrapped "preparing payment access audit")
                (new_event (access_params operator correlation id at))
              ≡ ok event))
        (on_error (wrapped "saving payment access audit") (save_audit_event event))
        (λ _. Accessed correlation t)
        (Untouched t)
unfolding save_audit_event insert_event
save_access-Accessed correlation id t operator at event =
    failures _ (λ _ p. p.0)
      (on_error-Hoare _ (save_audit_event event) (
        on_error-Hoare _ (change (insert_event event)) (
          change-Hoare (insert_event event) (λ u (p, q).
            let same =
              new_event-same (access_params operator correlation id at) event
                (map_err-eq-ok _ _ q) in
            record {
              event = event;
              written = ap (with_event event) p;
              access = ap (λ (e : Event). e.action) same;
              about = ap (λ (e : Event). e.resource_type) same;
              correlated = ap (λ (e : Event). e.correlation_id) same;
            }))))

audit_access-Accessed :
    (subject correlation : String) (t : Tables)
    → Hoare
        (Untouched t)
        (audit_access subject correlation)
        (λ _. Accessed correlation t)
        (Untouched t)
unfolding audit_access find_operator_id_by_auth_id
audit_access-Accessed subject correlation t =
    bind-Hoare {R = λ _. Untouched t}
      (on_error (wrapped "resolving payment access operator") (find_operator_id_by_auth_id subject))
      _
      (on_error-Hoare _ (find_operator_id_by_auth_id subject) (
        on_error-Hoare _ (change (select_operator subject))
          (change-Hoare (select_operator subject) (select_operator-keeps (Untouched t) subject))))
      (λ operator. bind-Hoare new_id _ new_id-keeps (λ id.
        bind-Hoare clock_now _ clock_now-keeps (λ at.
          bind-Hoare
            (lift (
              map_err (wrapped "preparing payment access audit")
                (new_event (access_params operator correlation id at))))
            _ (lift-knows _) (λ event. save_access-Accessed correlation id t operator at event))))

read_page-keeps :
    (P : Tables → Type 0) (reader : Reader) (q : AdminPaymentQuery) (t : Tables)
    → P t
    → Change (λ _. P) P t (read_page reader q t)
read_page-keeps P reader q t p = elim (Result-cases (reader.find_page q t)) [
  | inl (found, e) ↦ rw e p
  | inr (x, e) ↦ rw e p
]

-- An operator gets a page of payments only after the access has been recorded: a query that answers has
-- added one event of an access to payments, with the correlation of the request, and changed nothing
-- else, and one that fails has changed nothing, whatever fails meanwhile.
pub query_payments-Accessed :
    (reader : Reader) (q : AdminPaymentQuery) (subject correlation : String) (t : Tables)
    → Hoare
        (Untouched t)
        (query_payments reader q subject correlation)
        (λ _. Accessed correlation t)
        (Untouched t)
unfolding query_payments
query_payments-Accessed reader q subject correlation t =
    bind-Hoare (lift (validate reader.parse_uuid q)) _ (lift-keeps _) (λ _.
      bind-Hoare {R = λ _. Untouched t}
        (on_error (wrapped "reading administrative payments") (change (read_page reader q))) _
        (on_error-Hoare _ (change (read_page reader q))
          (change-Hoare (read_page reader q) (read_page-keeps (Untouched t) reader q)))
        (λ found.
          bind-Hoare
            (lift (or_error (message "reading administrative payments: missing snapshot") found)) _
            (lift-keeps _)
            (λ snapshot. bind-Hoare (lift (page_of q snapshot)) _ (lift-keeps _) (λ page.
              bind-Hoare (audit_access subject correlation) (λ _. pure page)
                (audit_access-Accessed subject correlation t)
                (λ _. lift-Hoare (ok page) (λ _ p. p))))))
