-- ===== src/Work/Hoare/Outcomes.antt =====
-- Conditions on the tables that belong to an outcome.
use loresuelvo_api.Common.{◌≡◌, sym, ap, ◌∙◌, subst, ok, err}
use loresuelvo_api.Errors.{Error, Outcome}
use loresuelvo_api.Work.{World, settled, map_failure, changed}

-- The condition that belongs to an outcome.
abbrev pub Branches : {T A : Type 0} → (A → T → Type 0) → (T → Type 0) → T → Outcome A → Type 0
Branches R E t (ok a) = R a t
Branches R E t (err e) = E t

-- The condition on what a statement makes of the tables.
abbrev pub Change : {T A : Type 0} → (A → T → Type 0) → (T → Type 0) → T → Outcome (T × A) → Type 0
Change R E t (ok (t', a)) = R a t'
Change R E t (err e) = E t

pub changed-Branches :
    {T S A : Type 0} (R : A → T → Type 0) (E : T → Type 0) (w : World T S) (r : Outcome (T × A))
    → Change R E w.tables r
    → Branches R E (changed w r).0.tables (changed w r).1
changed-Branches R E w (ok (t, a)) h = h
changed-Branches R E w (err e) h = h

pub map_failure-Branches :
    {T A : Type 0} (R : A → T → Type 0) (E : T → Type 0) (h : Error → Error) (t : T) (r : Outcome A)
    → Branches R E t r
    → Branches R E t (map_failure h r)
map_failure-Branches R E h t (ok a) b = b
map_failure-Branches R E h t (err e) b = b

pub settled-Branches :
    {T S A : Type 0} (P : T → Type 0) (R : A → T → Type 0) (E : T → Type 0) (before : T)
    (w : World T S) (r : Outcome A)
    → P before
    → Branches R E w.tables r
    → Branches R P (settled before w r).0.tables (settled before w r).1
settled-Branches P R E before w (ok a) p b = b
settled-Branches P R E before w (err e) p b = p

pub keeps-Branches :
    {T A : Type 0} (P : T → Type 0) (t : T) (r : Outcome A) → P t → Branches (λ _. P) P t r
keeps-Branches P t (ok a) p = p
keeps-Branches P t (err e) p = p

pub any_error :
    {T A : Type 0} (R : A → T → Type 0) (E : T → Type 0) (t : T) (r : Outcome A)
    → Branches R E t r
    → Branches R (λ _. Unit {0}) t r
any_error R E t (ok a) b = b
any_error R E t (err e) b = tt

pub answered_ok :
    {T A : Type 0} (R : A → T → Type 0) (E : T → Type 0) (a : A) (t : T) (r : Outcome A)
    → r ≡ ok a
    → Branches R E t r
    → R a t
answered_ok R E a t r e h = subst (Branches R E t) e h

-- A condition on both answers.
pub either : {T A : Type 0} (P : T → Type 0) (t : T) (r : Outcome A) → Branches (λ _. P) P t r → P t
either P t (ok a) h = h
either P t (err e) h = h

pub known-Change :
    {T A : Type 0} (f : T → Outcome (T × A)) (t u : T) (r : Outcome (T × A))
    → u ≡ t
    → f u ≡ r
    → Change (λ a v. f t ≡ ok (v, a)) (λ v. v ≡ t) u r
known-Change f t u (ok (v, a)) p e = ap f (sym p) ∙ e
known-Change f t u (err x) p e = p

pub known-Branches :
    {T A : Type 0} (P : T → Type 0) (t : T) (r s : Outcome A)
    → r ≡ s
    → P t
    → Branches (λ a u. P u × (r ≡ ok a)) P t s
known-Branches P t r (ok a) e p = (p, e)
known-Branches P t r (err x) e p = p

pub weaker-Branches :
    {T A : Type 0} (R R' : A → T → Type 0) (E : T → Type 0)
    → ((a : A) (u : T) → R a u → R' a u)
    → (t : T) (r : Outcome A) → Branches R E t r
    → Branches R' E t r
weaker-Branches R R' E weaker t (ok a) b = weaker a t b
weaker-Branches R R' E weaker t (err e) b = b

pub failed-Branches :
    {T A : Type 0} (R : A → T → Type 0) (E E' : T → Type 0)
    → ((t : T) → E t → E' t)
    → (t : T) (r : Outcome A) → Branches R E t r
    → Branches R E' t r
failed-Branches R E E' weaker t (ok a) b = b
failed-Branches R E E' weaker t (err e) b = weaker t b

pub any_outcome :
    {T A : Type 0} (t : T) (r : Outcome A)
    → Branches (λ (_ : A) (_ : T). Unit {0}) (λ _. Unit {0}) t r
any_outcome t (ok a) = tt
any_outcome t (err e) = tt
