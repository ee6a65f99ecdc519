-- ===== src/Installation/Revisions.antt =====
-- Installations that are saved at the same time (installation_repository.go).
use loresuelvo_api.Common.{
  ◌≡◌, inl, inr, refl, sym, ◌∙◌, ap, arith, String, Bool, true, false, ◌&&◌, ◌=ₛ◌, eq_iff, List, [],
  ◌∷◌, ok, err, is_some, ℤ, pos, ◌==ℤ◌, add_int64, Bool-cases,
}
use loresuelvo_api.Work.{first}
use loresuelvo_api.Installation.{Installation, conflict}
use loresuelvo_api.Installation.Service.{
  Tables, row_of, is_current, next_revision, update_rows, put_installation,
}

next_revision-ne : (v : ℤ) → (add_int64 v (pos 1) ==ℤ v) ≡ false
unfolding add_int64 ◌==ℤ◌
next_revision-ne v = ground arith

-- After an update no row of the revision is left.
update_rows-current :
    (i : Installation) (rows : List Installation)
    → is_some (first (is_current i) (update_rows i rows)) ≡ false
unfolding update_rows
update_rows-current i [] = refl
update_rows-current i (row ∷ rows) = elim (Bool-cases (is_current i row)) [
  | inr e ↦ rw e (rw e (update_rows-current i rows))
  | inl e ↦ rw e (
      rw ((eq_iff i.id i.id).1 refl)
        (rw (next_revision-ne i.revision) (update_rows-current i rows)))
]

abbrev has_revision : String → ℤ → List Installation → Bool
has_revision id revision rows =
    is_some (first (λ row. (row.id =ₛ id) && (row.revision ==ℤ revision)) rows)

put_installation-conflict :
    (j : Installation) (t : Tables)
    → ((j.revision ==ℤ pos 0) ≡ true → is_some (row_of j.id t.installations) ≡ true)
    → ((j.revision ==ℤ pos 0) ≡ false → is_some (first (is_current j) t.installations) ≡ false)
    → put_installation j t ≡ err conflict
unfolding put_installation
put_installation-conflict j t h k = elim (Bool-cases (j.revision ==ℤ pos 0)) [
  | inl e ↦ rw e (rw (h e) refl)
  | inr e ↦ rw e (rw (k e) refl)
]

-- What a save that succeeds leaves in the table.
put_installation_inserted :
    (i : Installation) (t t' : Tables) {saved : Installation}
    → put_installation i t ≡ ok (t', saved)
    → (i.revision ==ℤ pos 0) ≡ true
    → t'.installations ≡ next_revision i ∷ t.installations
unfolding put_installation
put_installation_inserted i t t' e z = ground (arith, e, z)

put_installation_updated :
    (i : Installation) (t t' : Tables) {saved : Installation}
    → put_installation i t ≡ ok (t', saved)
    → (i.revision ==ℤ pos 0) ≡ false
    → t'.installations ≡ update_rows i t.installations
unfolding put_installation
put_installation_updated i t t' e z = ground (arith, e, z)

-- Of two installations that were read at one revision, once one has been saved the other is refused.
put_installation_stale :
    (i j : Installation) (t t' : Tables) {saved : Installation}
    → put_installation i t ≡ ok (t', saved)
    → j.id ≡ i.id
    → j.revision ≡ i.revision
    → put_installation j t' ≡ err conflict
put_installation_stale i j t t' {saved} e same_id same_revision =
    put_installation-conflict j t'
      (λ z.
        rw (put_installation_inserted i t t' e (ap (λ v. v ==ℤ pos 0) (sym same_revision) ∙ z))
          (rw ((eq_iff i.id j.id).1 (sym same_id)) refl))
      (λ z. rw (put_installation_updated i t t' e (ap (λ v. v ==ℤ pos 0) (sym same_revision) ∙ z)) (
        ap (λ id. has_revision id j.revision (update_rows i t.installations)) same_id
        ∙ ap (λ r. has_revision i.id r (update_rows i t.installations)) same_revision
        ∙ update_rows-current i t.installations))
