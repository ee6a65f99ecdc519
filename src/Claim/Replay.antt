-- ===== src/Claim/Replay.antt =====
-- Administrations that are asked for again (internal/domain/claim/admin_service.go).
use loresuelvo_api.Common.{
  ◌≡◌, refl, sym, ap, subst, arith, true, eq_iff, Option, none, some, ok, err, is_some, ℤ, ==ℤ_iff,
  inl, inr, Bool-cases,
}
use loresuelvo_api.Errors.{Outcome, ClaimError, claim, wrapped}
use loresuelvo_api.Work.{World, lift, port, on_error, query, clock_now, new_id}
use loresuelvo_api.Work.Hoare.{
  Hoare, Branches, Change, bind-Hoare, lift-Hoare, lift-keeps, on_error-Hoare, on_port-keeps,
  change-Hoare, change_as-Hoare, query-keeps, unit_of_work_as-Hoare, Hoare-weaken, answered_ok,
  either, anything,
}
use loresuelvo_api.Audit.Event.{new_event}
use loresuelvo_api.Claim.{Claim, Action, Status}
use loresuelvo_api.Claim.Store.{
  AdministrationRecord, Tables, Call, claim_row, find_locked_claim, record_of, find_record,
  save_record, put_record, save_audit_event, save_lifecycle,
}
use loresuelvo_api.Claim.AdminService.{
  AdministrationResult, Administration, Request, replayed, record_action, keep_record,
  status_change, audit_params, last_action, act, record_for, administer, unless_recorded, on_found,
  attempt, retried, execute_request, is_record_conflict,
}

abbrev pub Known : Request → Tables → Type 0
Known request t = is_some (record_of request.operator_id request.key t) ≡ true

abbrev Untouched : Tables → Tables → Type 0
Untouched t u = u ≡ t

put_record-Known :
    (request : Request) (r : AdministrationRecord) (t : Tables)
    → r.operator_id ≡ request.operator_id
    → r.key ≡ request.key
    → Change (λ _. Known request) (λ _. Unit {0}) t (put_record r t)
unfolding put_record
put_record-Known request r t o k = elim (Bool-cases (is_some (record_of r.operator_id r.key t))) [
  | inl e ↦ rw e tt
  | inr e ↦ rw e (
      rw ((==ℤ_iff r.operator_id request.operator_id).1 o)
        (rw ((eq_iff r.key request.key).1 k) refl))
]

find_locked_claim-keeps : {P : Tables → Type 0} (id : ℤ) → Hoare P (find_locked_claim id) (λ _. P) P
unfolding find_locked_claim
find_locked_claim-keeps id =
    bind-Hoare (on_error (wrapped "locking claim") port) _ (on_port-keeps _)
      (λ _. on_error-Hoare _ (query (claim_row id)) (query-keeps (claim_row id)))

keep_record-Known :
    (request : Request) (action : Action) (saved : Claim)
    → Hoare (λ _. Unit {0}) (keep_record request action saved) (λ _. Known request) (λ _. Unit {0})
unfolding keep_record save_record
keep_record-Known request action saved =
    bind-Hoare {R = λ _. Known request} (save_record (record_for request action)) _
      (change_as-Hoare "saving claim administration record" (put_record (record_for request action))
        (λ t _. put_record-Known request (record_for request action) t refl refl))
      (λ _. lift-Hoare (ok (record { claim = saved; action = action })) (λ _ p. p))

-- What a saved action leaves, whatever was done before.
record_action-Known :
    (request : Request) (before : Status) (acted : Action) (saved : Claim)
    → Hoare
        (λ _. Unit {0})
        (record_action request before acted saved)
        (λ _. Known request)
        (λ _. Unit {0})
unfolding record_action
record_action-Known request before acted saved =
    bind-Hoare (lift (status_change before saved.status)) _ (anything _) (λ change.
      bind-Hoare new_id _ (anything _) (λ event_id.
        bind-Hoare (lift (new_event (audit_params request acted.created_on change event_id))) _
          (anything _)
          (λ event.
            bind-Hoare (save_audit_event event) _ (anything _)
              (λ _. keep_record-Known request (last_action acted saved.actions) saved))))

administer-Known :
    (request : Request) (what : Administration) (c : Claim)
    → Hoare (λ _. Unit {0}) (administer request what c) (λ _. Known request) (λ _. Unit {0})
unfolding administer
administer-Known request what c = bind-Hoare clock_now _ (anything _) (λ now.
    bind-Hoare (lift (act c request.operator_id what now)) _ (anything _) (λ acted.
      bind-Hoare (save_lifecycle acted.claim) _ (anything _)
        (λ saved. record_action-Known request c.status acted.action saved)))

-- The search for the record tells whether it is there.
find_record-knows :
    {P : Tables → Type 0} (request : Request)
    → Hoare P
        (find_record request.operator_id request.key)
        (λ found t. P t × (record_of request.operator_id request.key t ≡ found))
        P
unfolding find_record
find_record-knows request =
    on_error-Hoare _ (query (record_of request.operator_id request.key))
      (change-Hoare (λ t. ok (t, record_of request.operator_id request.key t)) (λ t p. (p, refl)))

unless_recorded-Known :
    (request : Request) (what : Administration) (c : Claim) (found : Option AdministrationRecord)
    → Hoare
        (λ t. Unit {0} × (record_of request.operator_id request.key t ≡ found))
        (unless_recorded request what c found)
        (λ _. Known request)
        (λ _. Unit {0})
unfolding unless_recorded
unless_recorded-Known request what c none = record {
  runs = λ w p. (administer-Known request what c).runs w tt;
}
unless_recorded-Known request what c (some r) = record {
  runs = λ w (_, e).
      (Hoare-weaken _ (lift-keeps {P = Known request} (replayed c r request))).runs w
        (ap is_some e);
}

on_found-Known :
    (request : Request) (what : Administration) (found : Option Claim)
    → Hoare (λ _. Unit {0}) (on_found request what found) (λ _. Known request) (λ _. Unit {0})
unfolding on_found
on_found-Known request what none = lift-Hoare (err (claim ClaimError.not_found)) (λ _ p. p)
on_found-Known request what (some c) =
    bind-Hoare (find_record request.operator_id request.key) (unless_recorded request what c)
      (find_record-knows {P = λ _. Unit {0}} request)
      (λ found. unless_recorded-Known request what c found)

attempt-Known :
    (request : Request) (what : Administration)
    → Hoare (λ _. Unit {0}) (attempt request what) (λ _. Known request) (λ _. Unit {0})
unfolding attempt on_found
attempt-Known request what = unit_of_work_as-Hoare _ _ _ (
    bind-Hoare (find_locked_claim request.id) (on_found request what) (anything _)
      (λ found. on_found-Known request what found))

-- With a record of the key nothing is written.
unless_recorded_again :
    (request : Request) (what : Administration) (t : Tables) (c : Claim)
    (found : Option AdministrationRecord)
    → Known request t
    → Hoare
        (λ u. Untouched t u × (record_of request.operator_id request.key u ≡ found))
        (unless_recorded request what c found)
        (λ _. Untouched t)
        (Untouched t)
unfolding unless_recorded
unless_recorded_again request what t c (some r) known = record {
  runs = λ w (p, _). (lift-keeps {P = Untouched t} (replayed c r request)).runs w p;
}
unless_recorded_again request what t c none known = record {
  runs = λ w (p, e).
      absurd (ground (arith, ap (record_of request.operator_id request.key) p, e, known));
}

on_found_again :
    (request : Request) (what : Administration) (t : Tables)
    → Known request t
    → (found : Option Claim)
    → Hoare (Untouched t) (on_found request what found) (λ _. Untouched t) (Untouched t)
unfolding on_found
on_found_again request what t known none = lift-Hoare (err (claim ClaimError.not_found)) (λ _ p. p)
on_found_again request what t known (some c) =
    bind-Hoare (find_record request.operator_id request.key) (unless_recorded request what c)
      (find_record-knows {P = Untouched t} request)
      (λ found. unless_recorded_again request what t c found known)

attempt_again :
    (request : Request) (what : Administration) (t : Tables)
    → Known request t
    → Hoare (Untouched t) (attempt request what) (λ _. Untouched t) (Untouched t)
unfolding attempt
attempt_again request what t known = unit_of_work_as-Hoare _ _ _ (
    bind-Hoare (find_locked_claim request.id) (on_found request what)
      (find_locked_claim-keeps request.id) (λ found. on_found_again request what t known found))

-- A second attempt, after a first one that left no trace.
retried-Branches :
    (P : Tables → Type 0) (R : AdministrationResult → Tables → Type 0)
    (m : Call AdministrationResult)
    → Hoare P m R P
    → (w : World Tables (Unit {0})) (r : Outcome AdministrationResult) → Branches R P w.tables r
    → Branches R P (retried m r w).0.tables (retried m r w).1
unfolding retried
retried-Branches P R m h w (ok a) b = b
retried-Branches P R m h w (err e) b = elim (Bool-cases (is_record_conflict e)) [
  | inl c ↦ rw c (h.runs w b)
  | inr c ↦ rw c b
]

retried-Hoare :
    {P : Tables → Type 0} {R : AdministrationResult → Tables → Type 0}
    (m : Call AdministrationResult)
    → Hoare P m R P
    → Hoare P (λ w. retried m (m w).1 (m w).0) R P
unfolding retried
retried-Hoare {P} {R} m h = record {
  runs = λ w p. retried-Branches P R m h (m w).0 (m w).1 (h.runs w p);
}

execute_request-keeps :
    {P : Tables → Type 0} {R : AdministrationResult → Tables → Type 0} (request : Request)
    (what : Administration)
    → Hoare P (attempt request what) R P
    → Hoare P (execute_request request what) R P
unfolding execute_request
execute_request-keeps request what h = on_error-Hoare _ _ (retried-Hoare (attempt request what) h)

-- Once an administration has succeeded, no request of the same operator with the same key changes a
-- table, whatever it asks for, whether it succeeds or fails, and whatever the environment does.
pub execute_request_repeated :
    (request again : Request) (what what' : Administration) {result : AdministrationResult}
    (w v : World Tables (Unit {0}))
    → (execute_request request what w).1 ≡ ok result
    → again.operator_id ≡ request.operator_id
    → again.key ≡ request.key
    → v.tables ≡ (execute_request request what w).0.tables
    → (execute_request again what' v).0.tables ≡ v.tables
execute_request_repeated request again what what' {result} w v done same_operator same_key kept =
    let left = (execute_request request what w).0.tables in
    let known =
      answered_ok (λ _. Known request) (λ _. Unit {0}) result left _ done
        ((execute_request-keeps request what (attempt-Known request what)).runs w tt) in
    let known' =
      subst (λ t. is_some (record_of again.operator_id again.key t) ≡ true) (sym kept)
        (subst (λ o. is_some (record_of o again.key left) ≡ true) (sym same_operator)
          (subst (λ k. is_some (record_of request.operator_id k left) ≡ true) (sym same_key)
            known)) in
    either (λ t. t ≡ v.tables) _ _
      ((execute_request-keeps again what' (attempt_again again what' v.tables known')).runs v refl)
