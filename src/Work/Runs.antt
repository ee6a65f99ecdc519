-- ===== src/Work/Runs.antt =====
-- What calls do to the tables, as functions of the tables alone.
use loresuelvo_api.Common.{
  arith, String, ◌≡◌, refl, ◌⊎◌, inl, inr, Option, none, some, ok, err, Result, Result-cases, List,
  [], ◌∷◌, ap, ◌∙◌, sym,
}
use loresuelvo_api.Common
use loresuelvo_api.Errors.{Error, Outcome, external, wrapped}
use loresuelvo_api.Time.{Instant}
use loresuelvo_api.Work.{
  World, M, port, taken, ticked, clock_now, bind_result, ◌>>=◌, pure, settled, transactionally,
  read, write, written, on_error, map_failure, change, changed, lift, unit_of_work, unit_of_work_as,
}

abbrev pub paired : {T : Type 0} → Outcome T → Outcome (T × Unit {0})
paired (ok t) = ok (t, tt)
paired (err e) = err e

-- A write, as a function of the tables that also returns.
abbrev pub silent : {T : Type 0} → (T → Outcome T) → T → Outcome (T × Unit {0})
silent f t = paired (f t)

-- A write and then what follows, on the tables.
abbrev pub then_put {ℓ} :
    {T : Type 0} {A : Type ℓ} → (T → Outcome T) → (T → Outcome A) → T → Outcome A
then_put f g t = Common.◌>>=◌ (silent f t) (λ r. g r.0)

-- What a call does is what it answers.
same_answer {ℓ} : {A : Type ℓ} {a b : A} {r : Outcome A} → r ≡ ok a → r ≡ ok b → a ≡ b
same_answer h k = ground (arith, h, k)

module _ {T S : Type 0} where
  -- The world after a call of a port, and whether it failed.
  pub port-cases :
      (w : World T S)
      → ((fs : List (Option String)) × (port w ≡ (record w { faults = fs }, ok tt)))
        ⊎ ((fs : List (Option String)) × (e : String) × (port w
              ≡ (record w { faults = fs }, err (external e))))
  unfolding port
  port-cases w =
      elim w.faults
        as (λ f.
          ((fs : List (Option String)) × (taken w f ≡ (record w { faults = fs }, ok tt)))
          ⊎ ((fs : List (Option String)) × (e : String) × (taken w f
                ≡ (record w { faults = fs }, err (external e))))) [
                  | [] ↦ inl (w.faults, refl)
                  | none ∷ rest ↦ inl (rest, refl)
                  | some e ∷ rest ↦ inr (rest, e, refl)
                ]

  -- A call that ends well has done to the tables what `f` does, and sends nothing.
  unfoldable pub Runs : (A : Type 0) → (T → Outcome (T × A)) → M T S A → World T S → Type 0
  Runs A f m w =
      ((t : T) × (a : A) × (w' : World T S) × (f w.tables ≡ ok (t, a))
        × (m w ≡ (w', ok a))
        × (w'.tables ≡ t)
        × (w'.sent ≡ w.sent))
      ⊎ ((e : Error) × (w' : World T S) × (m w ≡ (w', err e)) × (w'.sent ≡ w.sent))

  pub port-Runs : (w : World T S) → Runs (Unit {0}) (λ t. ok (t, tt)) port w
  unfolding Runs
  port-Runs w = elim (port-cases w) [
    | inl (fs, q) ↦ inl (_, _, _, refl, q, refl, refl)
    | inr (fs, e, q) ↦ inr (external e, _, q, refl)
  ]

  pub bind-Runs :
      {A B : Type 0} (f : T → Outcome (T × A)) (g : A → T → Outcome (T × B)) (m : M T S A)
      (k : A → M T S B) (w : World T S)
      → Runs A f m w
      → ((a : A) (v : World T S) → Runs B (g a) (k a) v)
      → Runs B (λ t. Common.◌>>=◌ (f t) (λ r. g r.1 r.0)) (m >>= k) w
  unfolding Runs
  bind-Runs f g m k w (inl (t, a, w', h, q, th, sh)) next = elim (next a w') [
    | inl (t', b, w'', h', q', th', sh') ↦ inl (
      t',
      b,
      w'',
      ap (λ r. Common.◌>>=◌ r (λ r. g r.1 r.0)) h ∙ ap (g a) (sym th) ∙ h',
      ap (λ p. bind_result p.0 p.1 k) q ∙ q',
      th',
      sh' ∙ sh,
    )
    | inr (e, w'', q', sh') ↦ inr (e, w'', ap (λ p. bind_result p.0 p.1 k) q ∙ q', sh' ∙ sh)
  ]
  bind-Runs f g m k w (inr (e, w', q, sh)) next = inr (e, w', ap (λ p. bind_result p.0 p.1 k) q, sh)

  pub write-Runs : (f : T → Outcome T) (w : World T S) → Runs (Unit {0}) (silent f) (write f) w
  unfolding Runs
  write-Runs f w = elim (port-cases w) [
    | inl (fs, q) ↦
        let q' = ap (λ p. bind_result p.0 p.1 (λ _ v. written v (f v.tables))) q in
        elim (Result-cases (f w.tables)) [
          | inl (t, h) ↦
              inl
                (t, tt, _, ap paired h, q' ∙ ap (written (record w { faults = fs })) h, refl, refl)
          | inr (e, h) ↦ inr (e, _, q' ∙ ap (written (record w { faults = fs })) h, refl)
        ]
    | inr (fs, e, q) ↦
        inr (external e, _, ap (λ p. bind_result p.0 p.1 (λ _ v. written v (f v.tables))) q, refl)
  ]

  -- A database transaction that fails leaves the tables as they were.
  abbrev pub Commits : (A : Type 0) → (T → Outcome (T × A)) → M T S A → World T S → Type 0
  Commits A f m w =
      ((t : T) × (a : A) × (w' : World T S) × (f w.tables ≡ ok (t, a))
        × (m w ≡ (w', ok a))
        × (w'.tables ≡ t)
        × (w'.sent ≡ w.sent))
      ⊎ ((e : Error) × (w' : World T S) × (m w ≡ (w', err e))
          × (w'.tables ≡ w.tables)
          × (w'.sent ≡ w.sent))

  -- A call that changes nothing, at the end.
  pub ending-Runs :
      {A : Type 0} (f : T → Outcome (T × A)) (m : M T S A) (end : M T S (Unit {0})) (w : World T S)
      → Runs A f m w
      → ((v : World T S) → Runs (Unit {0}) (λ t. ok (t, tt)) end v)
      → Runs A f (m >>= λ a. end >>= λ _. pure a) w
  unfolding Runs
  ending-Runs f m end w (inl (t, a, w', h, q, th, sh)) last =
      let q' = ap (λ p. bind_result p.0 p.1 (λ a. end >>= λ _. pure a)) q in
      elim (last w') [
        | inl (t', _, w'', h', q'', th', sh') ↦ inl (
          t,
          a,
          w'',
          h,
          q' ∙ ap (λ p. bind_result p.0 p.1 (λ _. pure a)) q'',
          th' ∙ ap (λ p. p.0) (same_answer h' refl) ∙ th,
          sh' ∙ sh,
        )
        | inr (e, w'', q'', sh') ↦
            inr (e, w'', q' ∙ ap (λ p. bind_result p.0 p.1 (λ _. pure a)) q'', sh' ∙ sh)
      ]
  ending-Runs f m end w (inr (e, w', q, sh)) last =
      inr (e, w', ap (λ p. bind_result p.0 p.1 (λ a. end >>= λ _. pure a)) q, sh)

  pub then_port-Runs :
      {A : Type 0} (f : T → Outcome (T × A)) (m : M T S A) (w : World T S)
      → Runs A f m w
      → Runs A f (m >>= λ a. port >>= λ _. pure a) w
  then_port-Runs f m w r = ending-Runs f m port w r port-Runs

  pub transactionally-Commits :
      {A : Type 0} (f : T → Outcome (T × A)) (m : M T S A) (w : World T S)
      → Runs A f m w
      → Commits A f (transactionally m) w
  unfolding Runs transactionally
  transactionally-Commits f m w (inl (t, a, w', h, q, th, sh)) =
      inl (t, a, w', h, ap (λ p. settled w.tables p.0 p.1) q, th, sh)
  transactionally-Commits f m w (inr (e, w', q, sh)) =
      inr (e, _, ap (λ p. settled w.tables p.0 p.1) q, refl, sh)

  -- The clock always answers and changes no table.
  pub clock_now-ok :
      (w : World T S)
      → (v : World T S) × (now : Instant) × (clock_now w ≡ (v, ok now))
        × (v.tables ≡ w.tables)
        × (v.sent ≡ w.sent)
  unfolding clock_now
  clock_now-ok w =
      elim w.ticks
        as (λ ds.
          (v : World T S) × (now : Instant) × (ticked w ds ≡ (v, ok now))
          × (v.tables ≡ w.tables)
          × (v.sent ≡ w.sent)) [
            | [] ↦ (_, _, refl, refl, refl)
            | d ∷ rest ↦ (_, _, refl, refl, refl)
          ]

  pub read-cases {ℓ} :
      {A : Type ℓ} (f : T → Outcome A) (w : World T S)
      → (v : World T S) × (v.tables ≡ w.tables)
        × (v.sent ≡ w.sent)
        × ((read f w ≡ (v, f w.tables)) ⊎ ((e : String) × (read f w ≡ (v, err (external e)))))
  read-cases f w = elim (port-cases w) [
    | inl (fs, q) ↦ (
      _,
      refl,
      refl,
      inl (
          ap (λ (p : World T S × Outcome (Unit {0})). bind_result p.0 p.1 (λ _ u. (u, f u.tables)))
            q),
    )
    | inr (fs, e, q) ↦ (
      _,
      refl,
      refl,
      inr (
        e,
        ap (λ (p : World T S × Outcome (Unit {0})). bind_result p.0 p.1 (λ _ u. (u, f u.tables))) q,
      ),
    )
  ]

  pub unit_of_work-Commits :
      {A : Type 0} (f : T → Outcome (T × A)) (m : M T S A) (w : World T S)
      → ((v : World T S) → Runs A f m v)
      → Commits A f (unit_of_work m) w
  unfolding unit_of_work
  unit_of_work-Commits f m w r =
      transactionally-Commits f (port >>= λ _. m >>= λ a. port >>= λ _. pure a) w (
        bind-Runs (λ t. ok (t, tt)) (λ _. f) port (λ _. m >>= λ a. port >>= λ _. pure a) w
          (port-Runs w) (λ _ v. then_port-Runs f m v (r v)))

  pub then-Runs :
      {A : Type 0} (f : T → Outcome T) (g : T → Outcome (T × A)) (k : M T S A) (w : World T S)
      → ((v : World T S) → Runs A g k v)
      → Runs A (then_put f g) (write f >>= λ _. k) w
  then-Runs f g k w r = bind-Runs (silent f) (λ _. g) (write f) (λ _. k) w (write-Runs f w) (λ _. r)

  pub on_error-Runs :
      {A : Type 0} (h : Error → Error) (f : T → Outcome (T × A)) (m : M T S A) (w : World T S)
      → Runs A f m w
      → Runs A f (on_error h m) w
  unfolding Runs
  on_error-Runs h f m w (inl (t, a, w', k, q, th, sh)) =
      inl (t, a, w', k, ap (λ p. (p.0, map_failure h p.1)) q, th, sh)
  on_error-Runs h f m w (inr (e, w', q, sh)) =
      inr (h e, w', ap (λ p. (p.0, map_failure h p.1)) q, sh)

  pub change-Runs : {A : Type 0} (f : T → Outcome (T × A)) (w : World T S) → Runs A f (change f) w
  unfolding Runs
  change-Runs f w = elim (port-cases w) [
    | inl (fs, q) ↦
        let q' = ap (λ p. bind_result p.0 p.1 (λ _ v. changed v (f v.tables))) q in
        elim (Result-cases (f w.tables)) [
          | inl ((t, a), h) ↦
              inl (t, a, _, h, q' ∙ ap (changed (record w { faults = fs })) h, refl, refl)
          | inr (e, h) ↦ inr (e, _, q' ∙ ap (changed (record w { faults = fs })) h, refl)
        ]
    | inr (fs, e, q) ↦
        inr (external e, _, ap (λ p. bind_result p.0 p.1 (λ _ v. changed v (f v.tables))) q, refl)
  ]

  pub lift-Runs :
      {A : Type 0} (r : Outcome A) (w : World T S)
      → Runs A (λ t. Common.◌>>=◌ r (λ a. ok (t, a))) (lift r) w
  unfolding Runs
  lift-Runs (ok a) w = inl (w.tables, a, w, refl, refl, refl, refl)
  lift-Runs (err e) w = inr (e, w, refl, refl)

  pub unit_of_work_as-Commits :
      {A : Type 0} (beginning committing : String) (f : T → Outcome (T × A)) (m : M T S A)
      (w : World T S)
      → ((v : World T S) → Runs A f m v)
      → Commits A f (unit_of_work_as beginning committing m) w
  unfolding unit_of_work_as
  unit_of_work_as-Commits beginning committing f m w r =
      let end = on_error (wrapped committing) port in
      transactionally-Commits f _ w (
        bind-Runs (λ t. ok (t, tt)) (λ _. f) (on_error (wrapped beginning) port)
          (λ _. m >>= λ a. end >>= λ _. pure a) w
          (on_error-Runs (wrapped beginning) (λ t. ok (t, tt)) port w (port-Runs w))
          (λ _ v.
            ending-Runs f m end v (r v)
              (λ u. on_error-Runs (wrapped committing) (λ t. ok (t, tt)) port u (port-Runs u))))
