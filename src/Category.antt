-- ===== src/Category.antt =====
-- internal/domain/category/{category,impact}.go: the categories of services that operators keep.
pub mod Laws
pub mod Store
pub mod Service
pub mod Steps
pub mod Audited
use loresuelvo_api.Common.{
  ℕ, String, Bool, true, false, not, ◌||◌, ◌&&◌, ◌=ₛ◌, Option, none, some, ok, ◌>>=◌, ◌>>◌, fail_if,
  map_err, if◌then◌else◌, ltb, ℤ, pos, leb_ℤ, ltb_ℤ, ◌==ℤ◌, add_int64, is_empty, trim_space,
  rune_count,
}
use loresuelvo_api.Errors.{Error, Outcome, CategoryError, category}
use loresuelvo_api.Time.{Instant}
use loresuelvo_api.Audit.{new_reason}

abbrev pub maximum_name_length : ℕ
maximum_name_length = 100

pub record Category : Type 0 where
  pub id : ℤ
  pub name : String
  pub normalized_name : String
  pub enabled : Bool
  pub version : ℤ

-- `Edit`
pub record CategoryEdit : Type 0 where
  pub expected_version : ℤ
  pub name : Option String
  pub enabled : Option Bool
  pub reason : String
  pub confirm_ongoing_orders : Bool

-- The category and whether it was changed.
pub record Edited : Type 0 where
  pub category : Category
  pub changed : Bool

abbrev pub or_else {ℓ} : {A : Type ℓ} → A → Option A → A
or_else a none = a
or_else _ (some a) = a

abbrev same_bool : Bool → Bool → Bool
same_bool true b = b
same_bool false b = not b

-- `edit.Name == nil && edit.Enabled == nil`
abbrev is_none {ℓ} : {A : Type ℓ} → Option A → Bool
is_none none = true
is_none (some a) = false

unfoldable pub check_edit_reason : String → Outcome (Unit {0})
unfolding new_reason
check_edit_reason reason =
    if is_empty reason
    then ok tt
    else do _ ← map_err (λ _. category CategoryError.invalid_reason) (new_reason reason); ok tt

-- `strings.ToLower` is the parameter.
module _ (to_lower : String → String) where
  unfoldable pub new_category : String → Outcome Category
  new_category name = do
    let trimmed = trim_space name
    fail_if (is_empty trimmed) (category CategoryError.name_required)
    fail_if (ltb maximum_name_length (rune_count trimmed)) (category CategoryError.name_too_long)
    ok (record {
      id = pos 0;
      name = trimmed;
      normalized_name = to_lower trimmed;
      enabled = true;
      version = pos 1;
    })

  -- `edit.Name`, if it is there, through `New`.
  unfoldable pub check_name : Option String → Outcome (Unit {0})
  unfolding new_category
  check_name none = ok tt
  check_name (some name) = do _ ← new_category name; ok tt

  unfoldable pub validate : CategoryEdit → Outcome (Unit {0})
  unfolding check_name check_edit_reason
  validate edit = do
    fail_if (leb_ℤ edit.expected_version (pos 0)) (category CategoryError.version_required)
    fail_if (is_none edit.name && is_none edit.enabled) (category CategoryError.no_changes)
    check_name edit.name
    check_edit_reason edit.reason

  unfoldable pub renamed : Category → Option String → Outcome Category
  unfolding new_category
  renamed c none = ok c
  renamed c (some name) = do
    named ← new_category name
    ok (record c { name = named.name; normalized_name = named.normalized_name })

  -- `Edit`; with an error the category stays as it was.
  unfoldable pub edit_category : Category → CategoryEdit → Bool → Outcome Edited
  unfolding validate renamed
  edit_category c edit has_ongoing_orders = do
    validate edit
    fail_if (not (c.version ==ℤ edit.expected_version)) (category CategoryError.version_conflict)
    named ← renamed c edit.name
    let next = record named { enabled = or_else named.enabled edit.enabled }
    fail_if (c.enabled && not next.enabled && has_ongoing_orders && not edit.confirm_ongoing_orders)
        (category CategoryError.confirmation_required)
    if (next.name =ₛ c.name) && same_bool next.enabled c.enabled
        then ok (record { category = c; changed = false })
        else ok (record {
          category = record next { version = add_int64 next.version (pos 1) };
          changed = true;
        })

unfoldable pub require_enabled : Category → Outcome (Unit {0})
require_enabled c = fail_if (not c.enabled) (category CategoryError.disabled)

pub record ImpactCounts : Type 0 where
  pub assigned_providers : ℤ
  pub pending_requests : ℤ
  pub accepted_requests_without_proposal : ℤ
  pub pending_proposals : ℤ
  pub scheduled_orders : ℤ
  pub awaiting_payment_orders : ℤ

pub record Impact : Type 0 where
  pub category : Category
  pub observed_at : Instant
  pub counts : ImpactCounts

unfoldable pub has_ongoing_orders : Impact → Bool
has_ongoing_orders impact =
    ltb_ℤ (pos 0) impact.counts.scheduled_orders
    || ltb_ℤ (pos 0) impact.counts.awaiting_payment_orders

unfoldable pub requires_confirmation : Impact → Bool
unfolding has_ongoing_orders
requires_confirmation impact = impact.category.enabled && has_ongoing_orders impact
