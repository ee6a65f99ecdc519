-- ===== src/Category/Steps.antt =====
-- The steps of an edit of a category (internal/domain/category/service.go) that only read the tables,
-- and the form of one that writes.
use loresuelvo_api.Common.{
  ◌≡◌, ==ℤ_iff, some, List, [], inl, inr, arith, String, false, ◌∷◌, ok, ℤ, pos, add_int64, itoa,
  Bool-cases, ◌==ℤ◌, ◌=ₛ◌, Option-cases, Bool, true, leb_ℤ,
}
use loresuelvo_api.Time.{Instant}
use loresuelvo_api.Work.{◌>>=◌, first, pure, clock_now}
use loresuelvo_api.Work.Hoare.{
  Hoare, Change, bind-Hoare, lift-keeps, change_as-Hoare, clock_now-keeps,
}
use loresuelvo_api.Audit.Event.{Action, EventParams, Event, new_event}
use loresuelvo_api.Category.{Category, CategoryEdit, edit_category, has_ongoing_orders}
use loresuelvo_api.Category.Store.{
  Tables, put_category, update_category, select_category, select_impact, find_impact,
  select_operator,
}
use loresuelvo_api.Category.Service.{find_ongoing, turns_off}

-- The tables with one more event.
abbrev pub with_event : Event → Tables → Tables
with_event event t = record t { audit_events = event ∷ t.audit_events }

-- The operator that is known by a subject of the identity provider replaced one category by what the
-- edit makes of it, its next version, and one event tells so.
pub record Logged (to_lower : String → String) (id : ℤ) (edit : CategoryEdit)
    (auth_subject correlation_id : String) (t t' : Tables) : Type 0 where
  pub operator_id : ℤ
  pub previous : Category
  pub edited : Category
  pub saved : Category
  pub between : Tables
  pub event : Event
  pub known : select_operator auth_subject t ≡ ok (t, operator_id)
  pub found : select_category id t ≡ ok (t, previous)
  pub found_id : previous.id ≡ id
  pub same_id : edited.id ≡ id
  pub ongoing : Bool
  pub made :
      edit_category to_lower previous edit ongoing
      ≡ ok (record { category = edited; changed = true })
  pub versioned : edited.version ≡ add_int64 previous.version (pos 1)
  pub put : update_category edited t ≡ ok (between, saved)
  pub written : t' ≡ with_event event between
  pub about : event.resource_id ≡ itoa id
  pub executed : event.action ≡ Action.execute
  pub by_operator : event.operator_id ≡ operator_id
  pub correlated : event.correlation_id ≡ correlation_id

abbrev pub Untouched : Tables → Tables → Type 0
Untouched t t' = t' ≡ t

pub new_event-same : (params event : EventParams) → new_event params ≡ ok event → event ≡ params
unfolding new_event
new_event-same params event e = ground arith

pub select_category-same :
    (id : ℤ) (t u : Tables) (c : Category) → select_category id t ≡ ok (u, c) → u ≡ t
unfolding select_category
select_category-same id t u c e = ground arith

first-id :
    (id : ℤ) (rows : List Category) (c : Category)
    → first (λ (row : Category). row.id ==ℤ id) rows ≡ some c
    → c.id ≡ id
first-id id [] c e = cc
first-id id (row ∷ rows) c e = elim (Bool-cases (row.id ==ℤ id)) [
  | inl q ↦ (==ℤ_iff c.id id).0 (ground (arith, q))
  | inr q ↦ first-id id rows c (ground (arith, q))
]

-- A category with an id is updated, not inserted.
pub put_category-update :
    (c : Category) (t : Tables) (r : Tables × Category)
    → leb_ℤ c.id (pos 0) ≡ false
    → put_category c t ≡ ok r
    → update_category c t ≡ ok r
unfolding put_category leb_ℤ
put_category-update c t r h e = elim (Bool-cases (c.id ==ℤ pos 0)) [
  | inl q ↦ absurd (ground (arith, (==ℤ_iff c.id (pos 0)).0 q))
  | inr q ↦ ground (arith, q)
]

-- The category that is found is the one that was asked for.
pub select_category-id :
    (id : ℤ) (t u : Tables) (c : Category) → select_category id t ≡ ok (u, c) → c.id ≡ id
unfolding select_category
select_category-id id t u c e =
    elim (Option-cases (first (λ (row : Category). row.id ==ℤ id) t.categories)) [
      | inl q ↦ absurd (ground (arith, q))
      | inr (d, q) ↦ first-id id t.categories c (ground (arith, q))
    ]

pub select_operator-same :
    (auth_id : String) (t u : Tables) (n : ℤ) → select_operator auth_id t ≡ ok (u, n) → u ≡ t
unfolding select_operator
select_operator-same auth_id t u n e =
    elim (Option-cases (first (λ o. o.auth_id =ₛ auth_id) t.operators)) [
      | inl q ↦ absurd (ground (arith, q))
      | inr (o, q) ↦ ground (arith, q)
    ]

select_impact-keeps :
    (P : Tables → Type 0) (id : ℤ) (at : Instant) (t : Tables)
    → P t
    → Change (λ _. P) P t (select_impact id at t)
unfolding select_impact
select_impact-keeps P id at t p = elim (Option-cases (first (λ row. row.id ==ℤ id) t.categories)) [
  | inl e ↦ rw e p
  | inr (c, e) ↦ rw e p
]

pub select_operator-keeps :
    (P : Tables → Type 0) (auth_id : String) (t : Tables)
    → P t
    → Change (λ _. P) P t (select_operator auth_id t)
unfolding select_operator
select_operator-keeps P auth_id t p =
    elim (Option-cases (first (λ o. o.auth_id =ₛ auth_id) t.operators)) [
      | inl e ↦ rw e p
      | inr (o, e) ↦ rw e p
    ]

pub find_ongoing-keeps :
    {P : Tables → Type 0} (id : ℤ) (edit : CategoryEdit) (current : Category)
    → Hoare P (find_ongoing id edit current) (λ _. P) P
unfolding find_ongoing find_impact
find_ongoing-keeps {P} id edit current =
    elim (Bool-cases (turns_off edit.enabled current.enabled)) [
      | inr e ↦ rw e (lift-keeps (ok false))
      | inl e ↦ rw e (
          bind-Hoare clock_now
            (λ at. find_impact id at >>= λ impact. pure (has_ongoing_orders impact)) clock_now-keeps
            (λ at.
              bind-Hoare (find_impact id at) (λ impact. pure (has_ongoing_orders impact))
                (change_as-Hoare _ (select_impact id at) (select_impact-keeps P id at))
                (λ impact. lift-keeps (ok (has_ongoing_orders impact)))))
    ]
