-- ===== src/Category/Store.antt =====
-- internal/adapters/repositories/{category_repository,category_unit_of_work,category_impact_reader}.go
-- on tables. The counts of the activity of a category come from the tables of other parts, as a
-- function of the category and the time.
use loresuelvo_api.Common.{
  ℕ, suc, String, Bool, not, ◌&&◌, ◌=ₛ◌, List, [], ◌∷◌, Option, none, some, ok, err, is_some,
  if◌then◌else◌, ℤ, pos, ◌==ℤ◌,
}
use loresuelvo_api.Errors.{Outcome, CategoryError, category, external}
use loresuelvo_api.Time.{Instant}
use loresuelvo_api.Work.{M, first, or_error, change, change_as, on_error}
use loresuelvo_api.Errors.{wrapped}
use loresuelvo_api.Audit.Event.{Event}
use loresuelvo_api.Category.{Category, Impact, ImpactCounts}

pub record Operator : Type 0 where
  pub id : ℤ
  pub auth_id : String

pub record Tables : Type 0 where
  pub categories : List Category
  pub next_id : ℕ
  pub audit_events : List Event
  pub operators : List Operator
  pub activity : ℤ → Instant → ImpactCounts

abbrev pub Call {ℓ} : Type ℓ → Type ℓ
Call A = M Tables (Unit {0}) A

-- Another row has the normalised name.
abbrev pub is_taken : Category → List Category → Bool
is_taken c rows =
    is_some
      (first (λ row. (row.normalized_name =ₛ c.normalized_name) && not (row.id ==ℤ c.id)) rows)

abbrev pub has_row : ℤ → List Category → Bool
has_row id rows = is_some (first (λ row. row.id ==ℤ id) rows)

-- `UPDATE categories ... WHERE id=$5`
unfoldable pub update_rows : Category → List Category → List Category
update_rows c [] = []
update_rows c (row ∷ rows) =
    let rest = update_rows c rows in if row.id ==ℤ c.id then c ∷ rest else row ∷ rest

unfoldable pub insert_category : Category → Tables → Outcome (Tables × Category)
insert_category c t =
    let saved = record c { id = pos t.next_id } in
    if is_taken c t.categories
    then err (category CategoryError.already_exists)
    else ok (record t { categories = saved ∷ t.categories; next_id = suc t.next_id }, saved)

unfoldable pub update_category : Category → Tables → Outcome (Tables × Category)
unfolding update_rows
update_category c t =
    if not (has_row c.id t.categories)
    then err (category CategoryError.does_not_exist)
    else if is_taken c t.categories
    then err (category CategoryError.already_exists)
    else ok (record t { categories = update_rows c t.categories }, c)

unfoldable pub put_category : Category → Tables → Outcome (Tables × Category)
unfolding insert_category update_category
put_category c t = if c.id ==ℤ pos 0 then insert_category c t else update_category c t

unfoldable pub save_category : Category → Call Category
unfolding put_category
save_category c = change_as "inserting category" (put_category c)

abbrev pub answer {ℓ} : {A : Type ℓ} → Tables → Outcome A → Outcome (Tables × A)
answer t (ok a) = ok (t, a)
answer t (err e) = err e

unfoldable pub select_category : ℤ → Tables → Outcome (Tables × Category)
select_category id t =
    answer t
      (or_error (category CategoryError.does_not_exist) (first (λ row. row.id ==ℤ id) t.categories))

unfoldable pub find_category : ℤ → Call Category
unfolding select_category
find_category id = change_as "finding category" (select_category id)

-- The category and the counts of one snapshot.
abbrev pub observed : Tables → Instant → Option Category → Outcome (Tables × Impact)
observed t at none = err (category CategoryError.does_not_exist)
observed t at (some c) =
    ok (t, record { category = c; observed_at = at; counts = t.activity c.id at })

unfoldable pub select_impact : ℤ → Instant → Tables → Outcome (Tables × Impact)
select_impact id at t = observed t at (first (λ row. row.id ==ℤ id) t.categories)

unfoldable pub find_impact : ℤ → Instant → Call Impact
unfolding select_impact
find_impact id at = change_as "reading category impact" (select_impact id at)

-- audit_event_repository.go: events are only added.
unfoldable pub insert_event : Event → Tables → Outcome (Tables × Unit {0})
insert_event event t = ok (record t { audit_events = event ∷ t.audit_events }, tt)

unfoldable pub save_audit_event : Event → Call (Unit {0})
unfolding insert_event
save_audit_event event = on_error (wrapped "saving audit event") (change (insert_event event))

abbrev operator_id : Tables → Option Operator → Outcome (Tables × ℤ)
operator_id t none = err (external "sql: no rows in result set")
operator_id t (some o) = ok (t, o.id)

unfoldable pub select_operator : String → Tables → Outcome (Tables × ℤ)
select_operator auth_id t = operator_id t (first (λ o. o.auth_id =ₛ auth_id) t.operators)

unfoldable pub find_operator_id_by_auth_id : String → Call ℤ
unfolding select_operator
find_operator_id_by_auth_id auth_id =
    on_error (wrapped "finding operator ID by auth ID") (change (select_operator auth_id))
