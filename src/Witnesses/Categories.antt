-- ===== src/Witnesses/Categories.antt =====
-- Categories that operators edit.
use mathlib.Core.Bool.{Bool}
use loresuelvo_api.Common.{
  ◌≡◌, ◌⊎◌, refl, [], ◌∷◌, none, some, err, pos, leb_ℤ, ◌==ℤ◌, trim_space, add_int64, rune_count,
}
use loresuelvo_api.Errors.{Error}
use loresuelvo_api.Work.Hoare.{Hoare}
use loresuelvo_api.Category.{Category, CategoryEdit, ImpactCounts, new_category, edit_category}
use loresuelvo_api.Category.Laws.{IsNamed, run, run-IsNamed, edit_category_stale}
use loresuelvo_api.Category.Store.{Tables}
use loresuelvo_api.Category.Service.{edit_stored_category}
use loresuelvo_api.Category.Audited.{edit_stored_category-Logged}
use loresuelvo_api.Category.Steps.{Untouched, Logged}

abbrev pub plumbing : Category
plumbing = record {
  id = pos 0;
  name = "Plumbing";
  normalized_name = "Plumbing";
  enabled = Bool.true;
  version = pos 1;
}

abbrev turn_off : CategoryEdit
turn_off = record {
  expected_version = pos 1;
  name = none;
  enabled = some Bool.false;
  reason = "season";
  confirm_ongoing_orders = Bool.true;
}

abbrev turned_off : Category
turned_off = record plumbing { enabled = Bool.false; version = pos 2 }

edit_category_stale_example :
    (x : Error) × (edit_category (λ s. s) turned_off turn_off Bool.false ≡ err x)
unfolding edit_category leb_ℤ trim_space ◌==ℤ◌ add_int64
edit_category_stale_example =
    edit_category_stale (λ s. s) plumbing turn_off turn_off Bool.true Bool.false
      {e = record { category = turned_off; changed = Bool.true }} refl refl refl

run-IsNamed_example :
    IsNamed (λ s. s) (run (λ s. s) plumbing (record { edit = turn_off; ongoing = Bool.true } ∷ []))
unfolding new_category trim_space rune_count
run-IsNamed_example =
    run-IsNamed (λ s. s) " Plumbing " (record { edit = turn_off; ongoing = Bool.true } ∷ [])
      {c = plumbing} refl

abbrev pub stored : Category
stored = record plumbing { id = pos 4 }

abbrev pub quiet : ImpactCounts
quiet = record {
  assigned_providers = pos 0;
  pending_requests = pos 0;
  accepted_requests_without_proposal = pos 0;
  pending_proposals = pos 0;
  scheduled_orders = pos 0;
  awaiting_payment_orders = pos 0;
}

abbrev pub tables : Tables
tables = record {
  categories = stored ∷ [];
  next_id = 5;
  audit_events = [];
  operators = record { id = pos 2; auth_id = "op" } ∷ [];
  activity = λ _ _. quiet;
}

edit_stored_category-Logged_example :
    Hoare
      (Untouched tables)
      (edit_stored_category (λ s. s) (pos 4) turn_off "op" "req-1")
      (λ _ u. Untouched tables u ⊎ Logged (λ s. s) (pos 4) turn_off "op" "req-1" tables u)
      (Untouched tables)
edit_stored_category-Logged_example =
    edit_stored_category-Logged (λ s. s) (pos 4) turn_off "op" "req-1" tables
