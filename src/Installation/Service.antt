-- ===== src/Installation/Service.antt =====
-- internal/domain/installation/service.go over a table, with the statements of
-- internal/adapters/repositories/installation_repository.go. A conflict of another unique index than
-- the primary key is among the faults.
use loresuelvo_api.Common.{
  String, Bool, not, ◌||◌, ◌&&◌, ◌=ₛ◌, List, [], ◌∷◌, Option, none, some, ok, err, is_some, fail_if,
  if◌then◌else◌, ℤ, pos, ◌==ℤ◌, add_int64,
}
use loresuelvo_api.Errors.{Outcome, wrapped}
use loresuelvo_api.Work.{M, first, or_error, ◌>>=◌, ◌>>◌, lift, pure, on_error, query, change_as}
use loresuelvo_api.Installation.{
  Installation, Registration, Platform, validate, new_registered, register, unregister, forbidden,
  conflict, invalid_installation,
}

-- What the service reads of a user.
pub record Actor : Type 0 where
  pub id : ℤ
  pub auth_id : String
  pub role : String

pub record Tables : Type 0 where
  pub installations : List Installation
  pub users : List Actor

abbrev pub Call {ℓ} : Type ℓ → Type ℓ
Call A = M Tables (Unit {0}) A

-- The installation and whether it was created.
pub record Registered : Type 0 where
  pub installation : Installation
  pub created : Bool

abbrev pub row_of : String → List Installation → Option Installation
row_of id rows = first (λ row. row.id =ₛ id) rows

-- `WHERE id=$1 AND revision=$10`
abbrev pub is_current : Installation → Installation → Bool
is_current i row = (row.id =ₛ i.id) && (row.revision ==ℤ i.revision)

abbrev pub next_revision : Installation → Installation
next_revision i = record i { revision = add_int64 i.revision (pos 1) }

unfoldable pub update_rows : Installation → List Installation → List Installation
update_rows i [] = []
update_rows i (row ∷ rows) =
    let rest = update_rows i rows in if is_current i row then next_revision i ∷ rest else row ∷ rest

-- `Save`: an insertion that finds the id, and an update that finds no row of the revision, conflict.
unfoldable pub put_installation : Installation → Tables → Outcome (Tables × Installation)
unfolding update_rows
put_installation i t =
    if i.revision ==ℤ pos 0
    then (if is_some (row_of i.id t.installations)
        then err conflict
        else ok (record t { installations = next_revision i ∷ t.installations }, next_revision i))
    else if is_some (first (is_current i) t.installations)
    then ok (record t { installations = update_rows i t.installations }, next_revision i)
    else err conflict

unfoldable pub save_installation : Installation → Call Installation
unfolding put_installation
save_installation i = change_as "saving installation" (put_installation i)

unfoldable pub find_installation : String → Call (Option Installation)
find_installation id =
    on_error (wrapped "finding installation") (query (λ t. row_of id t.installations))

unfoldable pub find_actor : String → Call Actor
find_actor auth_id =
    on_error (λ _. forbidden)
      (do
        found ← query (λ t. first (λ u. u.auth_id =ₛ auth_id) t.users)
        lift (or_error forbidden found))

module _ (platform : Platform) where
  -- The installation that a registration leaves.
  unfoldable pub renew : Actor → Registration → Option Installation → Outcome Installation
  renew actor r none = new_registered platform actor.id actor.role r
  renew actor r (some found) = register platform found actor.id actor.role r

  unfoldable pub register_installation : String → Registration → Call Registered
  unfolding find_actor find_installation renew save_installation validate
  register_installation auth_id r = do
    lift (validate platform r)
    actor ← find_actor auth_id
    found ← on_error (wrapped "finding installation") (find_installation r.id)
    renewed ← lift (renew actor r found)
    saved ← on_error (wrapped "saving installation registration") (save_installation renewed)
    pure (record { installation = saved; created = not (is_some found) })

  unfoldable pub remove_found : Actor → String → String → Option Installation → Call (Unit {0})
  unfolding save_installation
  remove_found actor secret binding_id none = pure tt
  remove_found actor secret binding_id (some found) = do
    removed ← lift (unregister platform found actor.id secret binding_id)
    _ ← on_error (wrapped "saving installation removal") (save_installation removed)
    pure tt

  unfoldable pub unregister_installation : String → String → String → String → Call (Unit {0})
  unfolding find_actor find_installation remove_found
  unregister_installation auth_id id secret binding_id = do
    lift (
        fail_if
          (not (platform.valid_uuid id)
            || not (platform.valid_uuid secret)
            || not (platform.valid_uuid binding_id))
          invalid_installation)
    actor ← find_actor auth_id
    found ← on_error (wrapped "finding installation") (find_installation id)
    remove_found actor secret binding_id found
