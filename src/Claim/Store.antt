-- ===== src/Claim/Store.antt =====
-- internal/adapters/repositories/{claim_repository,claim_administration_unit_of_work}.go on tables. The
-- constraints that are not written out are among the faults.
use loresuelvo_api.Common.{
  ℕ, suc, String, Bool, false, not, ◌&&◌, ◌=ₛ◌, List, [], ◌∷◌, Option, none, some, ok, err, is_some,
  if◌then◌else◌, ℤ, pos, ◌==ℤ◌,
}
use loresuelvo_api.Errors.{Outcome, ClaimError, claim, external, wrapped}
use loresuelvo_api.Work.{M, first, query, change, change_as, on_error, port, ◌>>◌}
use loresuelvo_api.Audit.Event.{Event}
use loresuelvo_api.Claim.{Claim, Claimant, Action}

pub record AdministrationRecord : Type 0 where
  pub operator_id : ℤ
  pub key : String
  pub fingerprint : String
  pub claim_id : ℤ
  pub action_id : ℤ

pub record Account : Type 0 where
  pub auth_id : String
  pub claimant : Claimant

pub record Tables : Type 0 where
  pub claims : List Claim
  pub next_claim_id : ℕ
  pub next_action_id : ℕ
  pub records : List AdministrationRecord
  pub audit_events : List Event
  pub accounts : List Account

abbrev pub Call {ℓ} : Type ℓ → Type ℓ
Call A = M Tables (Unit {0}) A

-- An action that is not stored yet gets the next id.
abbrev pub Numbered : Type 0
Numbered = ℕ × List Action

unfoldable pub number_actions : ℕ → List Action → Numbered
number_actions n [] = (n, [])
number_actions n (a ∷ actions) =
    let is_new = a.id ==ℤ pos 0 in
    let rest = number_actions (if is_new then suc n else n) actions in
    (rest.0, (if is_new then record a { id = pos n } else a) ∷ rest.1)

-- `UPDATE claims ... WHERE id=$1`: the columns of the life of a claim.
unfoldable pub update_claim : Claim → List Claim → List Claim
update_claim c [] = []
update_claim c (row ∷ rows) =
    let rest = update_claim c rows in
    if row.id ==ℤ c.id
    then record row {
      status = c.status;
      review_started_on = c.review_started_on;
      closed_on = c.closed_on;
      resolution = c.resolution;
      actions = c.actions;
    }
      ∷ rest
    else row ∷ rest

abbrev pub claim_row : ℤ → Tables → Option Claim
claim_row id t = first (λ c. c.id ==ℤ id) t.claims

abbrev resolved_twice : Claim → Option Claim → Bool
resolved_twice c none = false
resolved_twice c (some row) = is_some row.resolution && is_some c.resolution

-- `saveLifecycleWithExecutor`; the claim comes back with the ids of its actions.
unfoldable pub put_lifecycle : Claim → Tables → Outcome (Tables × Claim)
unfolding number_actions update_claim
put_lifecycle c t =
    let numbered = number_actions t.next_action_id c.actions in
    let saved = record c { actions = numbered.1 } in
    if not (is_some (claim_row c.id t))
    then err (claim ClaimError.not_found)
    else if resolved_twice c (claim_row c.id t)
    then err (wrapped "saving claim resolution" (external "claim_resolutions_pkey"))
    else ok (record t { claims = update_claim saved t.claims; next_action_id = numbered.0 }, saved)

unfoldable pub save_lifecycle : Claim → Call Claim
unfolding put_lifecycle
save_lifecycle c = change_as "saving claim lifecycle" (put_lifecycle c)

-- The lock of the row, and the statements that read the claim.
unfoldable pub find_locked_claim : ℤ → Call (Option Claim)
find_locked_claim id = do
  on_error (wrapped "locking claim") port
  on_error (wrapped "querying owned claim") (query (claim_row id))

abbrev pub record_of : ℤ → String → Tables → Option AdministrationRecord
record_of operator_id key t =
    first (λ r. (r.operator_id ==ℤ operator_id) && (r.key =ₛ key)) t.records

unfoldable pub find_record : ℤ → String → Call (Option AdministrationRecord)
find_record operator_id key =
    on_error (wrapped "finding claim administration record") (query (record_of operator_id key))

-- `INSERT` under the primary key of operator and key.
unfoldable pub put_record : AdministrationRecord → Tables → Outcome (Tables × Unit {0})
put_record r t =
    if is_some (record_of r.operator_id r.key t)
    then err (claim ClaimError.administration_record_conflict)
    else ok (record t { records = r ∷ t.records }, tt)

unfoldable pub save_record : AdministrationRecord → Call (Unit {0})
unfolding put_record
save_record r = change_as "saving claim administration record" (put_record r)

unfoldable pub put_event : Event → Tables → Outcome (Tables × Unit {0})
put_event event t = ok (record t { audit_events = event ∷ t.audit_events }, tt)

unfoldable pub save_audit_event : Event → Call (Unit {0})
unfolding put_event
save_audit_event event = on_error (wrapped "saving audit event") (change (put_event event))

abbrev account_id : Tables → Option Account → Outcome (Tables × ℤ)
account_id t none = err (external "sql: no rows in result set")
account_id t (some a) = ok (t, a.claimant.id)

unfoldable pub select_operator : String → Tables → Outcome (Tables × ℤ)
select_operator auth_id t = account_id t (first (λ a. a.auth_id =ₛ auth_id) t.accounts)

unfoldable pub find_operator_id_by_auth_id : String → Call ℤ
unfolding select_operator
find_operator_id_by_auth_id auth_id =
    on_error (wrapped "finding operator ID by auth ID") (change (select_operator auth_id))
