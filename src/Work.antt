-- ===== src/Work.antt =====
-- What the services run on: tables behind the repositories, the clock, the ids still to be generated,
-- and the faults that the environment has in store. Each call of a port first takes the next fault
-- of the list, and fails with it if there is one; an empty list has no more faults.
pub mod Runs
pub mod Hoare
pub mod Keeps
pub mod Statements
use loresuelvo_api.Common.{
  ℕ, ◌+◌, String, Bool, true, false, List, [], ◌∷◌, Option, none, some, Result, ok, err,
  if◌then◌else◌,
}
use loresuelvo_api.Errors.{Error, Outcome, external, wrapped}
use loresuelvo_api.Time.{Instant}

-- A transaction of the database commits or rolls back the tables; nothing takes back what was sent.
pub record World (T S : Type 0) : Type 0 where
  pub tables : T
  pub sent : S
  pub now : Instant
  pub ticks : List ℕ
  pub ids : List String
  pub faults : List (Option String)

abbrev pub M {ℓ} : Type 0 → Type 0 → Type ℓ → Type ℓ
M T S A = World T S → World T S × Outcome A

abbrev pub map_failure {ℓ} : {A : Type ℓ} → (Error → Error) → Outcome A → Outcome A
map_failure g (ok a) = ok a
map_failure g (err e) = err (g e)

-- `WHERE` with at most one row wanted: the first that passes the test.
abbrev pub first {ℓ} : {A : Type ℓ} → (A → Bool) → List A → Option A
first test [] = none
first test (x ∷ xs) = if test x then some x else first test xs

abbrev pub or_error {ℓ} : {A : Type ℓ} → Error → Option A → Outcome A
or_error e none = err e
or_error e (some a) = ok a

module _ {T S : Type 0} where
  infixl 5 ◌>>=◌ ◌>>◌
  abbrev pub bind_result {ℓ κ} :
      {A : Type ℓ} {B : Type κ} → World T S → Outcome A → (A → M T S B) → World T S × Outcome B
  bind_result w (ok a) f = f a w
  bind_result w (err e) f = (w, err e)

  abbrev pub ◌>>=◌ {ℓ κ} : {A : Type ℓ} {B : Type κ} → M T S A → (A → M T S B) → M T S B
  ◌>>=◌ m f w = bind_result (m w).0 (m w).1 f

  abbrev pub ◌>>◌ {ℓ} : {B : Type ℓ} → M T S (Unit {0}) → M T S B → M T S B
  m >> k = m >>= λ _. k

  -- A result that does not touch the world.
  abbrev pub lift {ℓ} : {A : Type ℓ} → Outcome A → M T S A
  lift r w = (w, r)

  abbrev pub pure {ℓ} : {A : Type ℓ} → A → M T S A
  pure a w = (w, ok a)

  -- `if err != nil { return nil, g(err) }`
  abbrev pub on_error {ℓ} : {A : Type ℓ} → (Error → Error) → M T S A → M T S A
  on_error g m w = ((m w).0, map_failure g (m w).1)

  abbrev pub taken : World T S → List (Option String) → World T S × Outcome (Unit {0})
  taken w [] = (w, ok tt)
  taken w (none ∷ rest) = (record w { faults = rest }, ok tt)
  taken w (some e ∷ rest) = (record w { faults = rest }, err (external e))

  -- The chance that a call of a port fails.
  unfoldable pub port : M T S (Unit {0})
  port w = taken w w.faults

  abbrev pub ticked : World T S → List ℕ → World T S × Outcome Instant
  ticked w [] = (w, ok w.now)
  ticked w (d ∷ rest) = (record w { now = w.now + d; ticks = rest }, ok (w.now + d))

  -- `clock.Now()`: time passes by the next tick.
  unfoldable pub clock_now : M T S Instant
  clock_now w = ticked w w.ticks

  abbrev pub generated : World T S → List String → World T S × Outcome String
  generated w [] = (w, ok "")
  generated w (id ∷ rest) = (record w { ids = rest }, ok id)

  -- `idGenerator()`
  unfoldable pub new_id : M T S String
  new_id w = generated w w.ids

  abbrev pub settled {ℓ} : {A : Type ℓ} → T → World T S → Outcome A → World T S × Outcome A
  settled before w (ok a) = (w, ok a)
  settled before w (err e) = (record w { tables = before }, err e)

  -- A database transaction: what it did to the tables is undone when it fails.
  unfoldable pub transactionally {ℓ} : {A : Type ℓ} → M T S A → M T S A
  transactionally m w = settled w.tables (m w).0 (m w).1

  abbrev pub read {ℓ} : {A : Type ℓ} → (T → Outcome A) → M T S A
  read f = do port; λ w. (w, f w.tables)

  abbrev pub written : World T S → Outcome T → World T S × Outcome (Unit {0})
  written w (ok t) = (record w { tables = t }, ok tt)
  written w (err e) = (w, err e)

  abbrev pub write : (T → Outcome T) → M T S (Unit {0})
  write f = do port; λ w. written w (f w.tables)

  abbrev pub changed {ℓ} : {A : Type ℓ} → World T S → Outcome (T × A) → World T S × Outcome A
  changed w (ok (t, a)) = (record w { tables = t }, ok a)
  changed w (err e) = (w, err e)

  -- A statement that changes the tables and answers.
  abbrev pub change {ℓ} : {A : Type ℓ} → (T → Outcome (T × A)) → M T S A
  change f = do port; λ w. changed w (f w.tables)

  -- The same with a text before the errors of the database.
  abbrev pub change_as {ℓ} : {A : Type ℓ} → String → (T → Outcome (T × A)) → M T S A
  change_as text f = do on_error (wrapped text) port; λ w. changed w (f w.tables)

  -- A query.
  abbrev pub query {ℓ} : {A : Type ℓ} → (T → A) → M T S A
  query f = change (λ t. ok (t, f t))

  -- `unitOfWork.Execute`: begin, the operation, commit.
  unfoldable pub unit_of_work {ℓ} : {A : Type ℓ} → M T S A → M T S A
  unfolding transactionally
  unit_of_work operation = transactionally (do port; a ← operation; port; pure a)

  -- The same with a text before the errors of begin and commit.
  unfoldable pub unit_of_work_as {ℓ} : {A : Type ℓ} → String → String → M T S A → M T S A
  unfolding transactionally
  unit_of_work_as beginning committing operation = transactionally (do
    on_error (wrapped beginning) port
    a ← operation
    on_error (wrapped committing) port
    pure a)
