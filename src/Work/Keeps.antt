-- ===== src/Work/Keeps.antt =====
-- Calls that keep a condition on the tables and on what was sent, whether they succeed or fail.
use loresuelvo_api.Common.{String, Option, none, some, ok, err, List, [], ◌∷◌, ℕ}
use loresuelvo_api.Errors.{Outcome}
use loresuelvo_api.Work.{World, M, port, taken, ticked, clock_now, bind_result, ◌>>=◌, read}

module _ {T S : Type 0} (I : T → S → Type 0) where
  -- The condition before a call and after it.
  abbrev pub Keeps {ℓ} : {A : Type ℓ} → M T S A → Type 0
  Keeps m = (w : World T S) → I w.tables w.sent → I (m w).0.tables (m w).0.sent

  bound-Keeps {ℓ κ} :
      {A : Type ℓ} {B : Type κ} (k : A → M T S B) (w : World T S) (r : Outcome A)
      → ((a : A) → Keeps (k a))
      → I w.tables w.sent
      → I (bind_result w r k).0.tables (bind_result w r k).0.sent
  bound-Keeps k w (ok a) next i = next a w i
  bound-Keeps k w (err e) next i = i

  pub bind-Keeps {ℓ κ} :
      {A : Type ℓ} {B : Type κ} (m : M T S A) (k : A → M T S B)
      → Keeps m
      → ((a : A) → Keeps (k a))
      → Keeps (m >>= k)
  bind-Keeps m k h next w i = bound-Keeps k (m w).0 (m w).1 next (h w i)

  taken-Keeps :
      (w : World T S) (fs : List (Option String))
      → I w.tables w.sent
      → I (taken w fs).0.tables (taken w fs).0.sent
  taken-Keeps w [] i = i
  taken-Keeps w (none ∷ rest) i = i
  taken-Keeps w (some e ∷ rest) i = i

  pub port-Keeps : Keeps port
  unfolding port
  port-Keeps w i = taken-Keeps w w.faults i

  ticked-Keeps :
      (w : World T S) (ds : List ℕ)
      → I w.tables w.sent
      → I (ticked w ds).0.tables (ticked w ds).0.sent
  ticked-Keeps w [] i = i
  ticked-Keeps w (d ∷ rest) i = i

  pub clock_now-Keeps : Keeps clock_now
  unfolding clock_now
  clock_now-Keeps w i = ticked-Keeps w w.ticks i

  pub read-Keeps {ℓ} : {A : Type ℓ} (f : T → Outcome A) → Keeps (read f)
  read-Keeps f = bind-Keeps port (λ _ w. (w, f w.tables)) port-Keeps (λ _ w i. i)
