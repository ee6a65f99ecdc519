-- ===== src/Category/Audited.antt =====
-- The audit trail of the categories (internal/domain/category/service.go).
use loresuelvo_api.Common.{
  ◌≡◌, ◌⊎◌, inl, inr, ap, subst, arith, String, Bool, Option, ok, ℤ, pos, itoa, Bool-cases, fail_if,
  leb_ℤ, true, false, refl, sym, ◌∙◌,
}
use loresuelvo_api.Errors.{Error, CategoryError, category, wrapped}
use loresuelvo_api.Time.{Instant}
use loresuelvo_api.Work.{lift, pure, on_error, change, clock_now, new_id}
use loresuelvo_api.Work.Hoare.{
  Hoare, bind-Hoare, lift-Hoare, lift-keeps, lift-knows, change_as-knows, on_error-Hoare,
  change-Hoare, clock_now-keeps, new_id-keeps, unit_of_work_as-Hoare, Hoare-weaken, from_known,
  answers, change-knows,
}
use loresuelvo_api.Work.Statements.{knowing}
use loresuelvo_api.Audit.Event.{Action, StateChange, Event, new_event}
use loresuelvo_api.Category.{Category, CategoryEdit, Edited, validate, edit_category}
use loresuelvo_api.Category.Laws.{edit_category-IsEdited}
use loresuelvo_api.Category.Store.{
  Tables, put_category, save_category, select_category, find_category, insert_event,
  save_audit_event, select_operator, find_operator_id_by_auth_id,
}
use loresuelvo_api.Category.Service.{
  unit_of_work, edit_params, reason_of, state_change_of, find_ongoing, audit_edit, save_changed,
  edit_found, edit_in_unit, edit_stored_category,
}
use loresuelvo_api.Category.Steps.{
  with_event, Logged, Untouched, new_event-same, select_category-same, find_ongoing-keeps,
  select_operator-same, select_category-id, put_category-update,
}

fail_if-passed : (test : Bool) (e : Error) {r : Unit {0}} → fail_if test e ≡ ok r → test ≡ false
fail_if-passed true e h = cc
fail_if-passed false e h = refl

module _ (id operator_id : ℤ) (edit : CategoryEdit) (correlation_id : String) where
  -- The event that is written, on the tables before it.
  abbrev Tells : Event → Type 0
  Tells event =
      (event.resource_id ≡ itoa id)
      × (event.action ≡ Action.execute)
      × (event.operator_id ≡ operator_id)
      × (event.correlation_id ≡ correlation_id)

  -- The tables after the event.
  abbrev Told : Tables → Tables → Type 0
  Told t u = (event : Event) × (u ≡ with_event event t) × Tells event

  save_audit_event-Told :
      (t : Tables) (reason : Option String) (change : Option StateChange) (event_id : String)
      (at : Instant) (event : Event)
      → Hoare
          (λ u.
            Untouched t u
            × (new_event (edit_params id operator_id correlation_id reason change event_id at)
                ≡ ok event))
          (save_audit_event event)
          (λ _. Told t)
          (λ _. Unit {0})
  unfolding save_audit_event insert_event
  save_audit_event-Told t reason state event_id at event = Hoare-weaken _ (
      on_error-Hoare _ (change (insert_event event)) (
        change-Hoare (insert_event event) (λ u (p, q).
          let same = new_event-same _ event q in
          (
            event,
            ap (with_event event) p,
            (
              ap (λ e. e.resource_id) same,
              ap (λ e. e.action) same,
              ap (λ e. e.operator_id) same,
              ap (λ e. e.correlation_id) same,
            ),
          ))))

  audit_edit-Tells :
      (previous current saved : Category) (t : Tables)
      → Hoare
          (Untouched t)
          (audit_edit id edit operator_id correlation_id previous current saved)
          (λ _. Told t)
          (λ _. Unit {0})
  unfolding audit_edit
  audit_edit-Tells previous current saved t =
      bind-Hoare (lift (reason_of edit.reason)) _ (Hoare-weaken _ (lift-keeps _)) (λ reason.
        bind-Hoare (lift (state_change_of previous.enabled current.enabled)) _
          (Hoare-weaken _ (lift-keeps _))
          (λ change. bind-Hoare new_id _ (Hoare-weaken _ new_id-keeps) (λ event_id.
            bind-Hoare clock_now _ (Hoare-weaken _ clock_now-keeps) (λ at.
              bind-Hoare
                (lift
                  (new_event (edit_params id operator_id correlation_id reason change event_id at)))
                _ (Hoare-weaken _ (lift-knows _))
                (λ event.
                  bind-Hoare (save_audit_event event) (λ _. pure saved)
                    (save_audit_event-Told t reason change event_id at event)
                    (λ _. Hoare-weaken _ (lift-keeps (ok saved))))))))

module _ (to_lower : String → String) (id : ℤ) (edit : CategoryEdit)
    (auth_subject correlation_id : String) (valid : leb_ℤ id (pos 0) ≡ false) where
  -- What the unit of work does to the tables.
  abbrev Recorded : Tables → Tables → Type 0
  Recorded t u = Untouched t u ⊎ Logged to_lower id edit auth_subject correlation_id t u

  module _ (operator_id : ℤ) (t : Tables)
      (known : select_operator auth_subject t ≡ ok (t, operator_id)) where
    saved-Logged :
        (current edited saved : Category) (ongoing : Bool) (u v : Tables)
        → select_category id t ≡ ok (t, current)
        → edit_category to_lower current edit ongoing
          ≡ ok (record { category = edited; changed = true })
        → put_category edited t ≡ ok (u, saved)
        → Told id operator_id edit correlation_id u v
        → Logged to_lower id edit auth_subject correlation_id t v
    saved-Logged current edited saved ongoing u v found made put (event, w, (about, act, by, cor)) =
        let e =
          edit_category-IsEdited to_lower current edit ongoing
            (record { category = edited; changed = true }) made in
        let found_id = select_category-id id t t current found in
        let same_id : edited.id ≡ id = e.same_id ∙ found_id in
        record {
          operator_id = operator_id;
          previous = current;
          edited = edited;
          saved = saved;
          between = u;
          event = event;
          known = known;
          found = found;
          found_id = found_id;
          same_id = same_id;
          ongoing = ongoing;
          made = made;
          versioned = ground (arith, e.shape);
          put =
              put_category-update edited t (u, saved)
                (subst (λ (n : ℤ). leb_ℤ n (pos 0) ≡ false) (sym same_id) valid) put;
          written = w;
          about = about;
          executed = act;
          by_operator = by;
          correlated = cor;
        }

    save_changed-Logged :
        (current : Category) (ongoing : Bool) (edited : Edited)
        → select_category id t ≡ ok (t, current)
        → edit_category to_lower current edit ongoing ≡ ok edited
        → Hoare
            (Untouched t)
            (save_changed id edit operator_id correlation_id current edited)
            (λ _. Recorded t)
            (λ _. Unit {0})
    unfolding save_changed save_category
    save_changed-Logged current ongoing edited found made = elim (Bool-cases edited.changed) [
      | inr q ↦ rw q (lift-Hoare (ok edited.category) (λ _ p. inl p))
      | inl q ↦
          let done : edit_category to_lower current edit ongoing
              ≡ ok (record { category = edited.category; changed = true }) =
            ground (arith, made, q) in
          rw q (
            bind-Hoare {R = λ saved u. put_category edited.category t ≡ ok (u, saved)}
              (on_error (wrapped "saving edited category") (save_category edited.category)) _
              (Hoare-weaken _ (
                on_error-Hoare _ (save_category edited.category)
                  (change_as-knows "inserting category" (put_category edited.category) t)))
              (λ saved. from_known _ (λ u put.
                answers _
                  (λ _ v told.
                    inr
                      (saved-Logged current edited.category saved ongoing u v found done put told))
                  (audit_edit-Tells id operator_id edit correlation_id current edited.category saved
                    u))))
    ]

    edit_found-Logged :
        (current : Category)
        → select_category id t ≡ ok (t, current)
        → Hoare
            (Untouched t)
            (edit_found to_lower id edit operator_id correlation_id current)
            (λ _. Recorded t)
            (λ _. Unit {0})
    unfolding edit_found
    edit_found-Logged current found =
        bind-Hoare (find_ongoing id edit current) _
          (Hoare-weaken _ (find_ongoing-keeps id edit current))
          (λ ongoing.
            bind-Hoare (lift (edit_category to_lower current edit ongoing)) _
              (Hoare-weaken _ (lift-knows _))
              (λ edited. knowing (save_changed-Logged current ongoing edited found)))

    edit_in_unit-Logged :
        Hoare
          (Untouched t)
          (edit_in_unit to_lower id edit correlation_id operator_id)
          (λ _. Recorded t)
          (Untouched t)
    unfolding edit_in_unit unit_of_work find_category
    edit_in_unit-Logged = unit_of_work_as-Hoare _ _ _ (
        bind-Hoare {R = λ c u. select_category id t ≡ ok (u, c)} (find_category id)
          (edit_found to_lower id edit operator_id correlation_id)
          (Hoare-weaken _ (change_as-knows "finding category" (select_category id) t))
          (λ current. record {
            runs = λ w found.
                let same = select_category-same id t w.tables current found in
                (edit_found-Logged current
                    (subst (λ u. select_category id t ≡ ok (u, current)) same found)).runs
                  w same;
          }))

  -- The same from the tables on which the operator was found.
  found_operator-Logged :
      (operator_id : ℤ) (t : Tables)
      → Hoare
          (λ u. select_operator auth_subject t ≡ ok (u, operator_id))
          (edit_in_unit to_lower id edit correlation_id operator_id)
          (λ _. Recorded t)
          (Untouched t)
  found_operator-Logged operator_id t = record {
    runs = λ w known.
        let same = select_operator-same auth_subject t w.tables operator_id known in
        (edit_in_unit-Logged operator_id t
            (subst (λ u. select_operator auth_subject t ≡ ok (u, operator_id)) same known)).runs
          w same;
  }

-- A call of EditCategory that fails leaves the tables as they were; one that succeeds leaves them so
-- too, or it updates the row of the category that was asked for to what the edit makes of it, which is
-- its next version, and adds one event, which names the category, the operator that the caller is
-- known as, and the request.
pub edit_stored_category-Logged :
    (to_lower : String → String) (id : ℤ) (edit : CategoryEdit)
    (auth_subject correlation_id : String) (t : Tables)
    → Hoare
        (Untouched t)
        (edit_stored_category to_lower id edit auth_subject correlation_id)
        (λ _ u. Untouched t u ⊎ Logged to_lower id edit auth_subject correlation_id t u)
        (Untouched t)
unfolding edit_stored_category find_operator_id_by_auth_id
edit_stored_category-Logged to_lower id edit auth_subject correlation_id t =
    bind-Hoare (lift (fail_if (leb_ℤ id (pos 0)) (category CategoryError.id_required))) _
      (lift-knows _)
      (λ _. knowing (λ positive. bind-Hoare (lift (validate to_lower edit)) _ (lift-keeps _) (λ _.
        bind-Hoare {R = λ n u. select_operator auth_subject t ≡ ok (u, n)}
          (on_error (wrapped "finding category editing operator")
            (find_operator_id_by_auth_id auth_subject))
          _
          (on_error-Hoare _ (find_operator_id_by_auth_id auth_subject) (
            on_error-Hoare _ (change (select_operator auth_subject))
              (change-knows (select_operator auth_subject) t)))
          (λ operator_id.
            found_operator-Logged to_lower id edit auth_subject correlation_id
              (fail_if-passed _ _ positive) operator_id t))))
