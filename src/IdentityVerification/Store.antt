-- ===== src/IdentityVerification/Store.antt =====
-- internal/adapters/repositories/identity_verification_repository.go on tables. Times are stored as
-- they are; that an event names a stored session is the foreign key of its table. The other
-- constraints of the tables are among the faults.
use Prim.Native.Nat.{Ordering}
use Prim.Native.String
use loresuelvo_api.Common.{
  String, Bool, true, false, ◌=ₛ◌, List, [], ◌∷◌, Option, none, some, ok, err, map_err, is_some,
  if◌then◌else◌, ltb, ℤ, ◌==ℤ◌,
}
use loresuelvo_api.Errors.{Outcome, external, wrapped}
use loresuelvo_api.Work.{M, first, query, change, on_error, ◌>>=◌, lift, pure}
use loresuelvo_api.IdentityVerification.{
  IdentityVerification, VerificationEvent, rehydrate_with_metadata,
}

-- internal/domain/provider: what starting a session reads of a provider.
pub record ProviderAccount : Type 0 where
  pub id : ℤ
  pub auth_id : String
  pub name : String
  pub surname : String

pub record Tables : Type 0 where
  pub sessions : List IdentityVerification
  pub events : List VerificationEvent
  pub providers : List ProviderAccount

abbrev pub Call {ℓ} : Type ℓ → Type ℓ
Call A = M Tables (Unit {0}) A

-- `ON CONFLICT (external_session_id) DO UPDATE`: every column is replaced but the creation time.
unfoldable pub upsert : IdentityVerification → List IdentityVerification → List IdentityVerification
upsert v [] = v ∷ []
upsert v (row ∷ rows) =
    let rest = upsert v rows in
    if row.external_session_id =ₛ v.external_session_id
    then record v { created_on = row.created_on } ∷ rows
    else row ∷ rest

unfoldable pub put_verification : IdentityVerification → Tables → Outcome (Tables × Unit {0})
unfolding upsert
put_verification v t = ok (record t { sessions = upsert v t.sessions }, tt)

unfoldable pub save : IdentityVerification → Call (Unit {0})
unfolding put_verification
save v = on_error (wrapped "saving identity verification") (change (put_verification v))

abbrev pub session_row : String → Tables → Option IdentityVerification
session_row session_id t = first (λ row. row.external_session_id =ₛ session_id) t.sessions

abbrev pub has_event : String → List VerificationEvent → Bool
has_event event_id events = is_some (first (λ e. e.event_id =ₛ event_id) events)

-- `ON CONFLICT (external_event_id) DO NOTHING`, and whether a row was written.
unfoldable pub insert_event : VerificationEvent → Tables → Outcome (Tables × Bool)
insert_event event t =
    if has_event event.event_id t.events
    then ok (t, false)
    else if is_some (session_row event.session_id t)
    then ok (record t { events = event ∷ t.events }, true)
    else err (external "identity_verification_events_external_session_id_fkey")

unfoldable pub save_event : VerificationEvent → Call Bool
unfolding insert_event
save_event event =
    on_error (wrapped "saving identity verification event") (change (insert_event event))

-- `ORDER BY created_on DESC, external_session_id DESC`
abbrev text_before : String → String → Bool
text_before s t = elim (Prim.Native.String.compare s t) [ Ordering.lt ↦ true | _ ↦ false ]

abbrev comes_first : IdentityVerification → IdentityVerification → Bool
comes_first a b =
    if ltb b.created_on a.created_on
    then true
    else if ltb a.created_on b.created_on
    then false
    else text_before b.external_session_id a.external_session_id

abbrev best : IdentityVerification → Option IdentityVerification → IdentityVerification
best row none = row
best row (some other) = if comes_first other row then other else row

-- `LIMIT 1`
unfoldable pub latest_row : ℤ → List IdentityVerification → Option IdentityVerification
latest_row provider_id [] = none
latest_row provider_id (row ∷ rows) =
    let rest = latest_row provider_id rows in
    if row.provider_id ==ℤ provider_id then some (best row rest) else rest

abbrev optional : Outcome IdentityVerification → Outcome (Option IdentityVerification)
optional (ok v) = ok (some v)
optional (err e) = err e

module _ (to_upper : String → String) where
  -- A row that is read becomes a verification again.
  abbrev pub rehydrated : Option IdentityVerification → Outcome (Option IdentityVerification)
  rehydrated none = ok none
  rehydrated (some row) =
      optional (
        map_err (wrapped "rehydrating identity verification")
          (rehydrate_with_metadata to_upper row))

  unfoldable pub find_by_session_id : String → Call (Option IdentityVerification)
  find_by_session_id session_id = do
    row ← on_error (wrapped "finding identity verification") (query (session_row session_id))
    lift (rehydrated row)

  -- The second query of `FindLatestByProviderID`.
  unfoldable pub find_row : Option IdentityVerification → Call (Option IdentityVerification)
  unfolding find_by_session_id
  find_row none = pure none
  find_row (some row) = find_by_session_id row.external_session_id

  unfoldable pub find_latest_by_provider_id : ℤ → Call (Option IdentityVerification)
  unfolding latest_row find_row
  find_latest_by_provider_id provider_id = do
    row ←
        on_error (wrapped "finding latest identity verification")
          (query (λ t. latest_row provider_id t.sessions))
    find_row row
