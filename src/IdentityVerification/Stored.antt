-- ===== src/IdentityVerification/Stored.antt =====
-- Events that are in the tables (internal/domain/identityverification/service.go).
use loresuelvo_api.Common.{
  ◌≡◌, refl, sym, subst, String, true, false, ok, eq_iff, Bool-cases, is_some, inl, inr, ◌||◌, ◌=ₛ◌,
  nil_uuid,
}
use loresuelvo_api.Time.{Instant, is_zero_time}
use loresuelvo_api.Work.Hoare.{Branches, Change}
use loresuelvo_api.IdentityVerification.{
  IdentityVerification, VerificationResult, VerificationEvent, new_verification_event,
}
use loresuelvo_api.IdentityVerification.Store.{
  Tables, has_event, insert_event, put_verification, session_row,
}

abbrev pub Known : String → Tables → Type 0
Known event_id t = has_event event_id t.events ≡ true

-- What a call that finds the event keeps.
abbrev pub Untouched : Tables → Tables → Type 0
Untouched t t' = t' ≡ t

pub insert_event_again :
    (event : VerificationEvent) (t : Tables)
    → Known event.event_id t
    → insert_event event t ≡ ok (t, false)
unfolding insert_event
insert_event_again event t h = rw h refl

pub insert_event_same :
    (event : VerificationEvent) {t t' : Tables}
    → Untouched t t'
    → Known event.event_id t
    → Change (λ stored u. Untouched t u × (stored ≡ false)) (Untouched t) t' (insert_event event t')
insert_event_same event {t} {t'} same known =
    rw (insert_event_again event t' (subst (Known event.event_id) (sym same) known)) (same, refl)

pub insert_event-Known :
    (event : VerificationEvent) (t : Tables)
    → Change (λ _. Known event.event_id) (λ _. Unit {0}) t (insert_event event t)
unfolding insert_event
insert_event-Known event t = elim (Bool-cases (has_event event.event_id t.events)) [
  | inl h ↦ rw h h
  | inr h ↦ elim (Bool-cases (is_some (session_row event.session_id t))) [
    | inl k ↦ rw h (rw k (rw ((eq_iff event.event_id event.event_id).1 refl) refl))
    | inr k ↦ rw h (rw k tt)
  ]
]

pub put_verification-Known :
    (event_id : String) (v : IdentityVerification) (t : Tables)
    → Known event_id t
    → Change (λ _. Known event_id) (Known event_id) t (put_verification v t)
unfolding put_verification
put_verification-Known event_id v t h = h

pub event_of_result :
    (result : VerificationResult) (now : Instant) (P : Tables → Type 0) (t : Tables)
    → P t
    → Branches
        (λ event t'. P t' × (event.event_id ≡ result.event_id))
        P
        t
        (new_verification_event result now)
unfolding new_verification_event
event_of_result result now P t p =
    elim (Bool-cases (
      (result.event_id =ₛ nil_uuid)
      || (result.session_id =ₛ nil_uuid)
      || is_zero_time result.occurred_on
      || is_zero_time now)) [ inl h ↦ rw h p | inr h ↦ rw h (p, refl) ]
