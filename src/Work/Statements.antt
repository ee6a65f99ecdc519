-- ===== src/Work/Statements.antt =====
-- Reads and writes between conditions on the tables.
use loresuelvo_api.Common.{◌≡◌, sym, ap, ok, err}
use loresuelvo_api.Errors.{Outcome}
use loresuelvo_api.Work.{World, M, port, read, write, written}
use loresuelvo_api.Work.Hoare.{Hoare, Branches, bind-Hoare, port-keeps}

answer-Branches :
    {T A : Type 0} (t u : T) (r s : Outcome A)
    → u ≡ t
    → r ≡ s
    → Branches (λ a v. (v ≡ t) × (r ≡ ok a)) (λ v. v ≡ t) u s
answer-Branches t u r (ok a) p e = (p, e)
answer-Branches t u r (err x) p e = p

written-Branches :
    {T S : Type 0} (t : T) (w : World T S) (r s : Outcome T)
    → w.tables ≡ t
    → r ≡ s
    → Branches (λ _ v. r ≡ ok v) (λ v. v ≡ t) (written w s).0.tables (written w s).1
written-Branches t w r (ok u) p e = e
written-Branches t w r (err x) p e = p

module _ {T S : Type 0} where
  -- What is read of known tables.
  pub read-knows :
      {A : Type 0} (f : T → Outcome A) (t : T)
      → Hoare (λ u. u ≡ t) (read {S = S} f) (λ a u. (u ≡ t) × (f t ≡ ok a)) (λ u. u ≡ t)
  read-knows f t =
      bind-Hoare port (λ _ w. (w, f w.tables)) port-keeps
        (λ _. record {
          runs = λ w p. answer-Branches t w.tables (f t) (f w.tables) p (ap f (sym p));
        })

  pub write-knows :
      (f : T → Outcome T) (t : T)
      → Hoare (λ u. u ≡ t) (write {S = S} f) (λ _ u. f t ≡ ok u) (λ u. u ≡ t)
  write-knows f t =
      bind-Hoare port (λ _ w. written w (f w.tables)) port-keeps
        (λ _. record { runs = λ w p. written-Branches t w (f t) (f w.tables) p (ap f (sym p)) })

  -- What is known apart from the tables, before a call.
  pub knowing :
      {A Q : Type 0} {P : T → Type 0} {R : A → T → Type 0} {E : T → Type 0} {m : M T S A}
      → (Q → Hoare P m R E)
      → Hoare (λ u. P u × Q) m R E
  knowing h = record { runs = λ w (p, q). (h q).runs w p }
