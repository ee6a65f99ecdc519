-- ===== src/IdentityVerification/Redelivery.antt =====
-- Events that arrive again (internal/domain/identityverification/service.go).
use loresuelvo_api.Common.{
  ◌≡◌, refl, sym, subst, arith, String, Bool, true, false, Option, none, some, ok, fail_if,
}
use loresuelvo_api.Errors.{wrapped}
use loresuelvo_api.Time.{Instant}
use loresuelvo_api.Work.{World, ◌>>=◌, lift, on_error, change, query, clock_now, unit_of_work_as}
use loresuelvo_api.Work.Hoare.{
  Hoare, bind-Hoare, lift-Hoare, lift-keeps, on_error-Hoare, change-Hoare, query-keeps,
  clock_now-keeps, Hoare-weaken, answered_ok, either, unit_of_work_as-Hoare,
}
use loresuelvo_api.IdentityVerification.{
  IdentityVerification, VerificationResult, VerificationEvent, new_verification_event,
  invalid_verification, apply_result,
}
use loresuelvo_api.IdentityVerification.Store.{
  Tables, insert_event, save_event, put_verification, save, find_by_session_id, session_row,
  rehydrated,
}
use loresuelvo_api.IdentityVerification.Service.{
  is_invalid_result, apply_found, unless_stored, record_result, in_unit_of_work, apply_valid,
  apply_verification_result,
}
use loresuelvo_api.IdentityVerification.Stored.{
  Known, Untouched, insert_event_same, insert_event-Known, put_verification-Known, event_of_result,
}

module _ (to_upper : String → String) where
  find_by_session_id-keeps :
      (session_id : String) {P : Tables → Type 0}
      → Hoare P (find_by_session_id to_upper session_id) (λ _. P) P
  unfolding find_by_session_id
  find_by_session_id-keeps session_id =
      bind-Hoare
        (on_error (wrapped "finding identity verification") (query (session_row session_id)))
        (λ row. lift (rehydrated to_upper row))
        (on_error-Hoare _ (query (session_row session_id)) (query-keeps (session_row session_id)))
        (λ row. lift-keeps (rehydrated to_upper row))

  apply_found-Known :
      (event_id : String) (result : VerificationResult) (now : Instant)
      (found : Option IdentityVerification)
      → Hoare
          (Known event_id)
          (apply_found to_upper result now found)
          (λ _. Known event_id)
          (Known event_id)
  unfolding apply_found save
  apply_found-Known event_id result now none = lift-Hoare _ (λ _ p. p)
  apply_found-Known event_id result now (some v) =
      bind-Hoare (lift (apply_result to_upper v result now))
        (λ applied. on_error (wrapped "saving identity verification result") (save applied))
        (lift-keeps _)
        (λ applied. on_error-Hoare _ (save applied) (
          on_error-Hoare _ (change (put_verification applied))
            (change-Hoare (put_verification applied) (put_verification-Known event_id applied))))

  -- What follows the event changes no events.
  unless_stored-Known :
      (event_id : String) (result : VerificationResult) (now : Instant) (stored : Bool)
      → Hoare
          (Known event_id)
          (unless_stored to_upper result now stored)
          (λ _. Known event_id)
          (Known event_id)
  unfolding unless_stored
  unless_stored-Known event_id result now false = lift-Hoare (ok tt) (λ _ p. p)
  unless_stored-Known event_id result now true =
      bind-Hoare
        (on_error (wrapped "finding identity verification session")
          (find_by_session_id to_upper result.session_id))
        (apply_found to_upper result now)
        (on_error-Hoare _ (find_by_session_id to_upper result.session_id)
          (find_by_session_id-keeps result.session_id))
        (λ found. apply_found-Known event_id result now found)

  record_result-Known :
      (result : VerificationResult) (event : VerificationEvent) (now : Instant)
      → Hoare
          (λ _. Unit {0})
          (record_result to_upper result event now)
          (λ _. Known event.event_id)
          (λ _. Unit {0})
  unfolding record_result save_event
  record_result-Known result event now =
      bind-Hoare (on_error (wrapped "saving identity verification event") (save_event event))
        (unless_stored to_upper result now)
        (on_error-Hoare _ (save_event event) (
          on_error-Hoare _ (change (insert_event event))
            (change-Hoare (insert_event event) (λ t _. insert_event-Known event t))))
        (λ stored. Hoare-weaken _ (unless_stored-Known event.event_id result now stored))

  unless_stored_again :
      (result : VerificationResult) (now : Instant) (t : Tables) (stored : Bool)
      → Hoare
          (λ t'. Untouched t t' × (stored ≡ false))
          (unless_stored to_upper result now stored)
          (λ _. Untouched t)
          (Untouched t)
  unfolding unless_stored
  unless_stored_again result now t false = lift-Hoare (ok tt) (λ _ (p, _). p)
  unless_stored_again result now t true = record { runs = λ w (_, e). absurd (ground arith) }

  record_result_again :
      (result : VerificationResult) (event : VerificationEvent) (now : Instant) (t : Tables)
      → Known event.event_id t
      → Hoare
          (Untouched t)
          (record_result to_upper result event now)
          (λ _. Untouched t)
          (Untouched t)
  unfolding record_result save_event unless_stored
  record_result_again result event now t known =
      bind-Hoare {R = λ stored t'. Untouched t t' × (stored ≡ false)}
        (on_error (wrapped "saving identity verification event") (save_event event))
        (unless_stored to_upper result now)
        (on_error-Hoare _ (save_event event) (
          on_error-Hoare _ (change (insert_event event))
            (change-Hoare (insert_event event) (λ t' same. insert_event_same event same known))))
        (λ stored. unless_stored_again result now t stored)

  in_unit_of_work_again :
      (result : VerificationResult) (now : Instant) (t : Tables) (event : VerificationEvent)
      → Known result.event_id t
      → Hoare
          (λ t'. Untouched t t' × (event.event_id ≡ result.event_id))
          (in_unit_of_work to_upper result now event)
          (λ _. Untouched t)
          (Untouched t)
  unfolding in_unit_of_work
  in_unit_of_work_again result now t event known = record {
    runs = λ w (same, e).
        (on_error-Hoare _ (unit_of_work_as _ _ (record_result to_upper result event now)) (
            unit_of_work_as-Hoare _ _ (record_result to_upper result event now) (
              record_result_again result event now t
                (subst (λ id. Known id t) (sym e) known)))).runs
          w same;
  }

  service_again :
      (result : VerificationResult) (t : Tables)
      → Known result.event_id t
      → Hoare
          (Untouched t)
          (apply_verification_result to_upper result)
          (λ _. Untouched t)
          (Untouched t)
  unfolding apply_verification_result apply_valid
  service_again result t known =
      bind-Hoare (lift (fail_if (is_invalid_result result) invalid_verification))
        (λ _. apply_valid to_upper result) (lift-keeps _)
        (λ _.
          bind-Hoare clock_now
            (λ now.
              lift (new_verification_event result now) >>= in_unit_of_work to_upper result now)
            clock_now-keeps
            (λ now.
              bind-Hoare {R = λ event t'. Untouched t t' × (event.event_id ≡ result.event_id)}
                (lift (new_verification_event result now)) (in_unit_of_work to_upper result now)
                (lift-Hoare _ (event_of_result result now (Untouched t)))
                (λ event. in_unit_of_work_again result now t event known)))

  in_unit_of_work-Known :
      (result : VerificationResult) (now : Instant) (event : VerificationEvent)
      → Hoare
          (λ _. Unit {0} × (event.event_id ≡ result.event_id))
          (in_unit_of_work to_upper result now event)
          (λ _. Known result.event_id)
          (λ _. Unit {0})
  unfolding in_unit_of_work
  in_unit_of_work-Known result now event = record {
    runs = λ w (_, e).
        (on_error-Hoare _ (unit_of_work_as _ _ (record_result to_upper result event now)) (
            unit_of_work_as-Hoare _ _ (record_result to_upper result event now) (
              subst
                (λ id.
                  Hoare (λ _. Unit {0}) (record_result to_upper result event now) (λ _. Known id)
                    (λ _. Unit {0}))
                e (record_result-Known result event now)))).runs
          w tt;
  }

  service-Known :
      (result : VerificationResult)
      → Hoare
          (λ _. Unit {0})
          (apply_verification_result to_upper result)
          (λ _. Known result.event_id)
          (λ _. Unit {0})
  unfolding apply_verification_result apply_valid
  service-Known result =
      bind-Hoare (lift (fail_if (is_invalid_result result) invalid_verification))
        (λ _. apply_valid to_upper result) (lift-keeps _)
        (λ _.
          bind-Hoare clock_now
            (λ now.
              lift (new_verification_event result now) >>= in_unit_of_work to_upper result now)
            clock_now-keeps
            (λ now.
              bind-Hoare {R = λ event _. Unit {0} × (event.event_id ≡ result.event_id)}
                (lift (new_verification_event result now)) (in_unit_of_work to_upper result now)
                (lift-Hoare _ (event_of_result result now (λ _. Unit {0})))
                (λ event. in_unit_of_work-Known result now event)))

  -- Once a result has been applied, no result of the same event changes a table, whatever else it
  -- says, whether the call succeeds or fails, and whatever the environment does.
  pub apply_verification_result_redelivered :
      (result again : VerificationResult) (w v : World Tables (Unit {0}))
      → (apply_verification_result to_upper result w).1 ≡ ok tt
      → again.event_id ≡ result.event_id
      → v.tables ≡ (apply_verification_result to_upper result w).0.tables
      → (apply_verification_result to_upper again v).0.tables ≡ v.tables
  apply_verification_result_redelivered result again w v done same kept =
      let left = (apply_verification_result to_upper result w).0.tables in
      let known =
        answered_ok (λ _. Known result.event_id) (λ _. Unit {0}) tt left _ done
          ((service-Known result).runs w tt) in
      either (λ t. t ≡ v.tables) _ _
        ((service_again again v.tables (
            subst (λ id. Known id v.tables) (sym same)
              (subst (Known result.event_id) (sym kept) known))).runs
          v refl)
