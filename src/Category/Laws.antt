-- ===== src/Category/Laws.antt =====
-- Editing a category (internal/domain/category/category.go).
use loresuelvo_api.Common.{
  ◌≡◌, ◌≢◌, ◌⊎◌, inl, inr, arith, ◌≤◌, String, Bool, true, false, Option, none, some, List, [], ◌∷◌,
  ok, err, Result-cases, ℤ, pos, ◌≤ℤ◌, leb_ℤ, ==ℤ_iff, add_int64, trim_space, is_empty, rune_count,
}
use loresuelvo_api.Common.Trim.{trim_space_idem}
use loresuelvo_api.Errors.{Error, Outcome}
use loresuelvo_api.Category.{
  Category, CategoryEdit, Edited, new_category, validate, renamed, edit_category,
}

-- What the name of a category is like.
pub record IsNamed (to_lower : String → String) (c : Category) : Type 0 where
  pub trimmed : trim_space c.name ≡ c.name
  pub named : is_empty c.name ≡ false
  pub short : rune_count c.name ≤ 100
  pub normalized : c.normalized_name ≡ to_lower c.name

-- What an edit that succeeds does.
pub record IsEdited (c : Category) (edit : CategoryEdit) (ongoing : Bool) (e : Edited)
    : Type 0 where
  pub versioned : pos 1 ≤ℤ c.version
  pub up_to_date : edit.expected_version ≡ c.version
  pub confirmed :
      c.enabled ≡ true
      → e.category.enabled ≡ false
      → ongoing ≡ true
      → edit.confirm_ongoing_orders ≡ true
  pub same_id : e.category.id ≡ c.id
  pub shape :
      ((e.changed ≡ false) × (e.category ≡ c))
      ⊎ ((e.changed ≡ true) × (e.category.version ≡ add_int64 c.version (pos 1)))

module _ (to_lower : String → String) where
  new_category-IsNamed :
      (name : String) (c : Category) → new_category to_lower name ≡ ok c → IsNamed to_lower c
  unfolding new_category
  new_category-IsNamed name c e = ground (arith, trim_space_idem name)

  renamed-IsNamed :
      (c d : Category) (name : Option String)
      → renamed to_lower c name ≡ ok d
      → IsNamed to_lower c
      → IsNamed to_lower d
  unfolding renamed
  renamed-IsNamed c d none e h = ground (arith, e, h)
  renamed-IsNamed c d (some name) e h = elim (Result-cases (new_category to_lower name)) [
    | inl (n, q) ↦
        let k = new_category-IsNamed name n q in
        ground (arith, k.trimmed, k.named, k.short, k.normalized)
    | inr (_, q) ↦ absurd (ground arith)
  ]

  renamed-same :
      (c d : Category) (name : Option String)
      → renamed to_lower c name ≡ ok d
      → (d.id ≡ c.id) × (d.enabled ≡ c.enabled) × (d.version ≡ c.version)
  unfolding renamed new_category
  renamed-same c d name e = ground arith

  validate-version :
      (edit : CategoryEdit) → validate to_lower edit ≡ ok tt → pos 1 ≤ℤ edit.expected_version
  unfolding validate leb_ℤ
  validate-version edit e = ground arith

  pub edit_category-IsEdited :
      (c : Category) (edit : CategoryEdit) (ongoing : Bool) (e : Edited)
      → edit_category to_lower c edit ongoing ≡ ok e
      → IsEdited c edit ongoing e
  unfolding edit_category
  edit_category-IsEdited c edit ongoing e h = elim (Result-cases (validate to_lower edit)) [
    | inr (_, q) ↦ absurd (ground arith)
    | inl (tt, q) ↦ elim (Result-cases (renamed to_lower c edit.name)) [
      | inr (_, q') ↦ absurd (ground arith)
      | inl (d, q') ↦
          let (i, b, v) = renamed-same c d edit.name q' in
          let p = validate-version edit q in
          let iff = ==ℤ_iff c.version edit.expected_version in
          record {
            versioned = ground (arith, iff, p);
            up_to_date = ground (arith, iff);
            confirmed = λ k k' k''. ground (arith, b);
            same_id = ground (arith, i);
            shape = ground (arith, v);
          }
    ]
  ]

  next_version-ne : (v : ℤ) → pos 1 ≤ℤ v → add_int64 v (pos 1) ≢ v
  unfolding add_int64
  next_version-ne v h = ground arith

  -- Once an edit of a version has changed the category, every other edit that expects that version
  -- is refused.
  pub edit_category_stale :
      (c : Category) (edit edit' : CategoryEdit) (ongoing ongoing' : Bool) {e : Edited}
      → edit_category to_lower c edit ongoing ≡ ok e
      → e.changed ≡ true
      → edit'.expected_version ≡ edit.expected_version
      → (x : Error) × (edit_category to_lower e.category edit' ongoing' ≡ err x)
  edit_category_stale c edit edit' ongoing ongoing' {e} done changed same =
      elim (Result-cases (edit_category to_lower e.category edit' ongoing')) [
        | inr refused ↦ refused
        | inl (e', done') ↦
            let a = edit_category-IsEdited c edit ongoing e done in
            let b = edit_category-IsEdited e.category edit' ongoing' e' done' in
            absurd (
              next_version-ne c.version a.versioned
                (ground (arith, a.shape, a.up_to_date, b.up_to_date, changed, same)))
      ]

  edit_category-IsNamed :
      (c : Category) (edit : CategoryEdit) (ongoing : Bool) (e : Edited)
      → edit_category to_lower c edit ongoing ≡ ok e
      → IsNamed to_lower c
      → IsNamed to_lower e.category
  unfolding edit_category
  edit_category-IsNamed c edit ongoing e h n = elim (Result-cases (validate to_lower edit)) [
    | inr (_, q) ↦ absurd (ground arith)
    | inl (tt, q) ↦ elim (Result-cases (renamed to_lower c edit.name)) [
      | inr (_, q') ↦ absurd (ground arith)
      | inl (d, q') ↦
          let k = renamed-IsNamed c d edit.name q' n in
          ground (arith, k.trimmed, k.named, k.short, k.normalized)
    ]
  ]

-- An edit, and whether the category had ongoing orders.
pub record Attempt : Type 0 where
  pub edit : CategoryEdit
  pub ongoing : Bool

abbrev pub kept_or : Category → Outcome Edited → Category
kept_or c (ok e) = e.category
kept_or c (err x) = c

module _ (to_lower : String → String) where
  unfoldable pub run : Category → List Attempt → Category
  run c [] = c
  run c (a ∷ edits) = run (kept_or c (edit_category to_lower c a.edit a.ongoing)) edits

  run_of-IsNamed :
      (c : Category) (edits : List Attempt) → IsNamed to_lower c → IsNamed to_lower (run c edits)
  unfolding run
  run_of-IsNamed c [] h = h
  run_of-IsNamed c (a ∷ edits) h = elim (Result-cases (edit_category to_lower c a.edit a.ongoing)) [
    | inl (e, q) ↦
        rw q (
          run_of-IsNamed e.category edits (edit_category-IsNamed to_lower c a.edit a.ongoing e q h))
    | inr (x, q) ↦ rw q (run_of-IsNamed c edits h)
  ]

  -- A category made by New, however it is edited, has a name without spaces around it, that is not
  -- empty and at most 100 characters long, and is normalised as its name is.
  pub run-IsNamed :
      (name : String) (edits : List Attempt) {c : Category}
      → new_category to_lower name ≡ ok c
      → IsNamed to_lower (run c edits)
  run-IsNamed name edits {c} e = run_of-IsNamed c edits (new_category-IsNamed to_lower name c e)
