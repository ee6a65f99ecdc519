-- ===== src/Category/Service.antt =====
-- internal/domain/category/service.go over the tables.
use loresuelvo_api.Common.{
  String, Bool, true, false, not, ◌&&◌, List, [], ◌∷◌, Option, none, some, Result, ok, err, fail_if,
  if◌then◌else◌, ℤ, pos, leb_ℤ, is_empty, itoa, is_some,
}
use loresuelvo_api.Common
use loresuelvo_api.Errors.{Outcome, CategoryError, category, wrapped}
use loresuelvo_api.Time.{Instant}
use loresuelvo_api.Work.{◌>>=◌, ◌>>◌, lift, pure, on_error, clock_now, new_id, unit_of_work_as}
use loresuelvo_api.Audit.{new_reason}
use loresuelvo_api.Audit.Event.{
  Action, EventResult, StateChange, EventParams, new_event, new_state_change,
}
use loresuelvo_api.Category.{
  Category, CategoryEdit, Edited, Impact, new_category, validate, edit_category, has_ongoing_orders,
}
use loresuelvo_api.Category.Store.{
  Call, save_category, find_category, find_impact, save_audit_event, find_operator_id_by_auth_id,
}

-- `categoryUnitOfWork.Execute`
unfoldable pub unit_of_work {ℓ} : {A : Type ℓ} → Call A → Call A
unit_of_work operation =
    unit_of_work_as "beginning category unit of work" "committing category unit of work" operation

abbrev pub creation_params : Category → ℤ → String → String → Instant → EventParams
creation_params saved operator_id correlation_id id at = record {
  id = id;
  operator_id = operator_id;
  action = Action.create;
  resource_type = "category";
  resource_id = itoa saved.id;
  occurred_on = at;
  result = EventResult.succeeded;
  correlation_id = correlation_id;
  reason = none;
  state_change = none;
  conversation_id = none;
}

-- The event of a creation, made and saved.
unfoldable pub audit_creation : Category → ℤ → String → Call Category
audit_creation saved operator_id correlation_id = do
  id ← new_id
  at ← clock_now
  event ←
      on_error (wrapped "creating category audit event")
        (lift (new_event (creation_params saved operator_id correlation_id id at)))
  on_error (wrapped "saving category audit event") (save_audit_event event)
  pure saved

abbrev state_name : Bool → String
state_name true = "enabled"
state_name false = "disabled"

unfoldable pub state_change_of : Bool → Bool → Outcome (Option StateChange)
unfolding new_state_change
state_change_of true true = ok none
state_change_of false false = ok none
state_change_of previous current =
    Common.◌>>=◌ (new_state_change "enabled" (state_name previous) (state_name current))
      (λ change. ok (some change))

unfoldable pub reason_of : String → Outcome (Option String)
unfolding new_reason
reason_of reason =
    if is_empty reason then ok none else Common.◌>>=◌ (new_reason reason) (λ text. ok (some text))

abbrev pub edit_params :
    ℤ → ℤ → String → Option String → Option StateChange → String → Instant → EventParams
edit_params category_id operator_id correlation_id reason change id at = record {
  id = id;
  operator_id = operator_id;
  action = Action.execute;
  resource_type = "category";
  resource_id = itoa category_id;
  occurred_on = at;
  result = EventResult.succeeded;
  correlation_id = correlation_id;
  reason = reason;
  state_change = change;
  conversation_id = none;
}

-- `edit.Enabled != nil && !*edit.Enabled && current.Enabled`
abbrev pub turns_off : Option Bool → Bool → Bool
turns_off (some false) true = true
turns_off _ _ = false

-- The fresh impact is read only when the category is turned off.
unfoldable pub find_ongoing : ℤ → CategoryEdit → Category → Call Bool
unfolding has_ongoing_orders
find_ongoing id edit current =
    if turns_off edit.enabled current.enabled
    then (do at ← clock_now; impact ← find_impact id at; pure (has_ongoing_orders impact))
    else pure false

-- What follows the saving of a changed category; `previous` is the one that was found.
unfoldable pub audit_edit :
    ℤ → CategoryEdit → ℤ → String → Category → Category → Category → Call Category
unfolding reason_of state_change_of
audit_edit id edit operator_id correlation_id previous current saved = do
  reason ← lift (reason_of edit.reason)
  change ← lift (state_change_of previous.enabled current.enabled)
  event_id ← new_id
  at ← clock_now
  event ← lift (new_event (edit_params id operator_id correlation_id reason change event_id at))
  save_audit_event event
  pure saved

-- What follows the transition.
unfoldable pub save_changed : ℤ → CategoryEdit → ℤ → String → Category → Edited → Call Category
unfolding audit_edit
save_changed id edit operator_id correlation_id previous edited =
    if edited.changed
    then (do
      saved ← on_error (wrapped "saving edited category") (save_category edited.category)
      audit_edit id edit operator_id correlation_id previous edited.category saved)
    else pure edited.category

-- The loop of `ListCategories`, which keeps the enabled ones.
unfoldable pub only_enabled : List Category → List Category
only_enabled [] = []
only_enabled (c ∷ cs) = let rest = only_enabled cs in if c.enabled then c ∷ rest else rest

unfoldable pub get_impact : ℤ → Call Impact
get_impact id = do
  lift (fail_if (leb_ℤ id (pos 0)) (category CategoryError.id_required))
  at ← clock_now
  find_impact id at

-- `strings.ToLower` is the parameter.
module _ (to_lower : String → String) where
  unfoldable pub create_category : String → String → String → Call Category
  unfolding audit_creation unit_of_work
  create_category name auth_subject correlation_id = do
    new ← lift (new_category to_lower name)
    operator_id ←
        on_error (wrapped "finding category creation operator")
          (find_operator_id_by_auth_id auth_subject)
    unit_of_work (do
      saved ← on_error (wrapped "saving category") (save_category new)
      audit_creation saved operator_id correlation_id)

  -- The operation of the unit of work, after the category is found.
  unfoldable pub edit_found : ℤ → CategoryEdit → ℤ → String → Category → Call Category
  unfolding find_ongoing save_changed
  edit_found id edit operator_id correlation_id current = do
    ongoing ← find_ongoing id edit current
    edited ← lift (edit_category to_lower current edit ongoing)
    save_changed id edit operator_id correlation_id current edited

  unfoldable pub edit_in_unit : ℤ → CategoryEdit → String → ℤ → Call Category
  unfolding edit_found unit_of_work
  edit_in_unit id edit correlation_id operator_id =
      unit_of_work (find_category id >>= edit_found id edit operator_id correlation_id)

  unfoldable pub edit_stored_category : ℤ → CategoryEdit → String → String → Call Category
  unfolding edit_in_unit
  edit_stored_category id edit auth_subject correlation_id = do
    lift (fail_if (leb_ℤ id (pos 0)) (category CategoryError.id_required))
    lift (validate to_lower edit)
    operator_id ←
        on_error (wrapped "finding category editing operator")
          (find_operator_id_by_auth_id auth_subject)
    edit_in_unit id edit correlation_id operator_id
