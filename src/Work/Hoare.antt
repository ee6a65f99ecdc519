-- ===== src/Work/Hoare.antt =====
-- Calls between conditions on the tables: one before the call, one for each answer and one for errors.
mod Outcomes
use loresuelvo_api.Common.{
  ℕ, String, ◌≡◌, refl, sym, ap, ◌∙◌, subst, Option, none, some, ok, err, List, [], ◌∷◌,
}
use loresuelvo_api.Errors.{Error, Outcome, wrapped}
use loresuelvo_api.Work.{
  World, M, port, taken, ticked, clock_now, bind_result, ◌>>=◌, settled, transactionally, on_error,
  map_failure, change, changed, change_as, query, lift, pure, unit_of_work_as, generated, new_id,
}
pub use loresuelvo_api.Work.Hoare.Outcomes.{Branches, Change, either, answered_ok}
use loresuelvo_api.Work.Hoare.Outcomes.{
  changed-Branches, map_failure-Branches, settled-Branches, keeps-Branches, any_error, known-Change,
  known-Branches, weaker-Branches, failed-Branches, any_outcome,
}

pub record Hoare {T S A : Type 0} (P : T → Type 0) (m : M T S A) (R : A → T → Type 0)
    (E : T → Type 0) : Type 0 where
  pub runs : (w : World T S) → P w.tables → Branches R E (m w).0.tables (m w).1

bind-Branches :
    {T S A B : Type 0} (R : A → T → Type 0) (Q : B → T → Type 0) (E : T → Type 0) (k : A → M T S B)
    (w : World T S) (r : Outcome A)
    → Branches R E w.tables r
    → ((a : A) → Hoare (R a) (k a) Q E)
    → Branches Q E (bind_result w r k).0.tables (bind_result w r k).1
bind-Branches R Q E k w (ok a) h next = (next a).runs w h
bind-Branches R Q E k w (err e) h next = h

module _ {T S : Type 0} where
  pub bind-Hoare :
      {A B : Type 0} {P : T → Type 0} {R : A → T → Type 0} {Q : B → T → Type 0} {E : T → Type 0}
      (m : M T S A) (k : A → M T S B)
      → Hoare P m R E
      → ((a : A) → Hoare (R a) (k a) Q E)
      → Hoare P (m >>= k) Q E
  bind-Hoare {R = R} {Q = Q} {E = E} m k h next = record {
    runs = λ w p. bind-Branches R Q E k (m w).0 (m w).1 (h.runs w p) next;
  }

  -- The condition before a call, one table at a time.
  pub from_known :
      {A : Type 0} {P : T → Type 0} {R : A → T → Type 0} {E : T → Type 0} (m : M T S A)
      → ((t : T) → P t → Hoare (λ u. u ≡ t) m R E)
      → Hoare P m R E
  from_known m h = record { runs = λ w p. (h w.tables p).runs w refl }

  -- A weaker condition on the answers.
  pub answers :
      {A : Type 0} {P : T → Type 0} {R R' : A → T → Type 0} {E : T → Type 0} (m : M T S A)
      → ((a : A) (u : T) → R a u → R' a u)
      → Hoare P m R E
      → Hoare P m R' E
  answers {R = R} {R' = R'} {E = E} m weaker h = record {
    runs = λ w p. weaker-Branches R R' E weaker (m w).0.tables (m w).1 (h.runs w p);
  }

  -- A weaker condition on the failures.
  pub failures :
      {A : Type 0} {P : T → Type 0} {R : A → T → Type 0} {E E' : T → Type 0} (m : M T S A)
      → ((t : T) → E t → E' t)
      → Hoare P m R E
      → Hoare P m R E'
  failures {R = R} {E = E} {E' = E'} m weaker h = record {
    runs = λ w p. failed-Branches R E E' weaker (m w).0.tables (m w).1 (h.runs w p);
  }

  -- Of any call nothing is asked.
  pub anything :
      {A : Type 0} {P : T → Type 0} (m : M T S A) → Hoare P m (λ _ _. Unit {0}) (λ _. Unit {0})
  anything m = record { runs = λ w p. any_outcome (m w).0.tables (m w).1 }

  -- What answers without a look at the tables.
  pub lift-Hoare :
      {A : Type 0} {P : T → Type 0} {R : A → T → Type 0} {E : T → Type 0} (r : Outcome A)
      → ((t : T) → P t → Branches R E t r)
      → Hoare P (lift {S = S} r) R E
  lift-Hoare r h = record { runs = λ w p. h w.tables p }

  pub lift-keeps :
      {A : Type 0} {P : T → Type 0} (r : Outcome A) → Hoare P (lift {S = S} r) (λ _. P) P
  lift-keeps {P = P} r = record { runs = λ w p. keeps-Branches P w.tables r p }

  taken-keeps :
      (P : T → Type 0) (w : World T S) (fs : List (Option String))
      → P w.tables
      → Branches (λ _. P) P (taken w fs).0.tables (taken w fs).1
  taken-keeps P w [] p = p
  taken-keeps P w (none ∷ rest) p = p
  taken-keeps P w (some e ∷ rest) p = p

  pub port-keeps : {P : T → Type 0} → Hoare P (port {S = S}) (λ _. P) P
  unfolding port
  port-keeps {P = P} = record { runs = λ w p. taken-keeps P w w.faults p }

  ticked-keeps :
      (P : T → Type 0) (w : World T S) (ds : List ℕ)
      → P w.tables
      → Branches (λ _. P) P (ticked w ds).0.tables (ticked w ds).1
  ticked-keeps P w [] p = p
  ticked-keeps P w (d ∷ rest) p = p

  pub clock_now-keeps : {P : T → Type 0} → Hoare P (clock_now {S = S}) (λ _. P) P
  unfolding clock_now
  clock_now-keeps {P = P} = record { runs = λ w p. ticked-keeps P w w.ticks p }

  generated-keeps :
      (P : T → Type 0) (w : World T S) (ids : List String)
      → P w.tables
      → Branches (λ _. P) P (generated w ids).0.tables (generated w ids).1
  generated-keeps P w [] p = p
  generated-keeps P w (id ∷ rest) p = p

  pub new_id-keeps : {P : T → Type 0} → Hoare P (new_id {S = S}) (λ _. P) P
  unfolding new_id
  new_id-keeps {P = P} = record { runs = λ w p. generated-keeps P w w.ids p }

  pub on_error-Hoare :
      {A : Type 0} {P : T → Type 0} {R : A → T → Type 0} {E : T → Type 0} (h : Error → Error)
      (m : M T S A)
      → Hoare P m R E
      → Hoare P (on_error h m) R E
  on_error-Hoare {R = R} {E = E} h m k = record {
    runs = λ w p. map_failure-Branches R E h (m w).0.tables (m w).1 (k.runs w p);
  }

  pub change-Hoare :
      {A : Type 0} {P : T → Type 0} {R : A → T → Type 0} (f : T → Outcome (T × A))
      → ((t : T) → P t → Change R P t (f t))
      → Hoare P (change {S = S} f) R P
  change-Hoare {P = P} {R = R} f h =
      bind-Hoare port (λ _ w. changed w (f w.tables)) port-keeps
        (λ _. record { runs = λ w p. changed-Branches R P w (f w.tables) (h w.tables p) })

  pub on_port-keeps :
      {P : T → Type 0} (h : Error → Error) → Hoare P (on_error h (port {S = S})) (λ _. P) P
  on_port-keeps h = on_error-Hoare h port port-keeps

  pub change_as-Hoare :
      {A : Type 0} {P : T → Type 0} {R : A → T → Type 0} (text : String) (f : T → Outcome (T × A))
      → ((t : T) → P t → Change R P t (f t))
      → Hoare P (change_as {S = S} text f) R P
  change_as-Hoare {P = P} {R = R} text f h =
      bind-Hoare (on_error (wrapped text) port) (λ _ w. changed w (f w.tables))
        (on_port-keeps (wrapped text))
        (λ _. record { runs = λ w p. changed-Branches R P w (f w.tables) (h w.tables p) })

  -- A statement on known tables.
  pub change_as-knows :
      {A : Type 0} (text : String) (f : T → Outcome (T × A)) (t : T)
      → Hoare (λ u. u ≡ t) (change_as {S = S} text f) (λ a u. f t ≡ ok (u, a)) (λ u. u ≡ t)
  change_as-knows text f t = change_as-Hoare text f (λ u p. known-Change f t u (f u) p refl)

  pub change-knows :
      {A : Type 0} (f : T → Outcome (T × A)) (t : T)
      → Hoare (λ u. u ≡ t) (change {S = S} f) (λ a u. f t ≡ ok (u, a)) (λ u. u ≡ t)
  change-knows f t = change-Hoare f (λ u p. known-Change f t u (f u) p refl)

  pub lift-knows :
      {A : Type 0} {P : T → Type 0} (r : Outcome A)
      → Hoare P (lift {S = S} r) (λ a u. P u × (r ≡ ok a)) P
  lift-knows {P = P} r = record { runs = λ w p. known-Branches P w.tables r r refl p }

  pub query-keeps : {A : Type 0} {P : T → Type 0} (f : T → A) → Hoare P (query {S = S} f) (λ _. P) P
  query-keeps f = change-Hoare (λ t. ok (t, f t)) (λ t p. p)

  pub transactionally-Hoare :
      {A : Type 0} {P : T → Type 0} {R : A → T → Type 0} (E : T → Type 0) (m : M T S A)
      → Hoare P m R E
      → Hoare P (transactionally m) R P
  unfolding transactionally
  transactionally-Hoare {P = P} {R = R} E m h = record {
    runs = λ w p. settled-Branches P R E w.tables (m w).0 (m w).1 p (h.runs w p);
  }

  pub Hoare-weaken :
      {A : Type 0} {P : T → Type 0} {R : A → T → Type 0} {E : T → Type 0} (m : M T S A)
      → Hoare P m R E
      → Hoare P m R (λ _. Unit {0})
  Hoare-weaken {R = R} {E = E} m h = record {
    runs = λ w p. any_error R E (m w).0.tables (m w).1 (h.runs w p);
  }

  -- A transaction that fails leaves the condition before it.
  pub unit_of_work_as-Hoare :
      {A : Type 0} {P : T → Type 0} {R : A → T → Type 0} {E : T → Type 0}
      (beginning committing : String) (m : M T S A)
      → Hoare P m R E
      → Hoare P (unit_of_work_as beginning committing m) R P
  unfolding unit_of_work_as
  unit_of_work_as-Hoare {P = P} {R = R} beginning committing m h =
      let end = on_error (wrapped committing) port in
      transactionally-Hoare (λ _. Unit {0})
        (on_error (wrapped beginning) port >>= λ _. m >>= λ a. end >>= λ _. pure a)
        (bind-Hoare (on_error (wrapped beginning) port) (λ _. m >>= λ a. end >>= λ _. pure a)
          (Hoare-weaken _ (on_port-keeps {P = P} (wrapped beginning)))
          (λ _.
            bind-Hoare m (λ a. end >>= λ _. pure a) (Hoare-weaken m h)
              (λ a.
                bind-Hoare end (λ _. pure a)
                  (Hoare-weaken end (on_port-keeps {P = R a} (wrapped committing)))
                  (λ _. lift-Hoare (ok a) (λ _ p. p)))))
