-- ===== src/Payment/AdminPolicy/Totals.antt =====
-- The approved amounts of internal/domain/payment/admin_policy.go.
use loresuelvo_api.Common.{
  ◌≡◌, refl, sym, ap, ◌∙◌, arith, String, Bool, true, false, not, ◌&&◌, ◌=ₛ◌, eq_iff, List, [], ◌∷◌,
  ◌++◌, Option, ok, ℤ, pos, negsuc, ◌+ℤ◌, ◌-ℤ◌, IsInt64, ltb_ℤ, sub_int64, add_int64, wrap_int64,
  All, if◌then◌else◌, Bool-cases, inl, inr, ok-inj, >>=-eq-ok, +ℤ_parts, eq_of_parts,
}
use loresuelvo_api.Payment.AdminPolicy.{
  AdminPaymentAmount, AdminPaymentTransaction, AdminPaymentBreakdown, AdminPayment,
  AdminPaymentProposal, Projection, ContractAmounts, admin_add_amount, contains, amount_of,
  put_amount, contract_amounts,
}
use loresuelvo_api.Payment.AdminPolicy.Scan.{
  IntentScan, ProposalScan, key_of, add_unless, with_key, is_approved, flagged, scan_approved,
  scan_transaction, scan_transactions, scan_intent, scan_intents, project_admin_payment_proposal,
}
use loresuelvo_api.Payment.AdminPolicy.Shown.{shown_amounts}

-- The approved transactions, each key of a processor once.
pub distinct_approved : List String → List AdminPaymentTransaction → List AdminPaymentTransaction
distinct_approved seen [] = []
distinct_approved seen (t ∷ ts) = elim (is_approved t && not (contains seen (key_of t))) [
  | true ↦ t ∷ distinct_approved (key_of t ∷ seen) ts
  | false ↦ distinct_approved seen ts
]

-- The exact sum of the transactions in a currency.
abbrev pub sum_of : String → List AdminPaymentTransaction → ℤ
sum_of c [] = pos 0
sum_of c (t ∷ ts) = if t.currency =ₛ c then t.amount_cents +ℤ sum_of c ts else sum_of c ts

-- All transactions of a proposal, intent by intent.
abbrev pub transactions_of : List AdminPayment → List AdminPaymentTransaction
transactions_of [] = []
transactions_of (i ∷ is) = i.transactions ++ transactions_of is

admin_add_amount-exact : (a b n : ℤ) → IsInt64 b → admin_add_amount a b ≡ ok n → n ≡ a +ℤ b
unfolding admin_add_amount ltb_ℤ sub_int64 add_int64 wrap_int64 ◌+ℤ◌ ◌-ℤ◌
admin_add_amount-exact (pos a) (pos b) n i h = ground arith
admin_add_amount-exact (negsuc a) b n i h = ground arith
admin_add_amount-exact (pos a) (negsuc b) n i h = ground arith

amount_of-put_amount :
    (c d : String) (n : ℤ) (m : List AdminPaymentAmount)
    → amount_of d (put_amount c n m) ≡ (if c =ₛ d then n else amount_of d m)
unfolding put_amount
amount_of-put_amount c d n [] = refl
amount_of-put_amount c d n (a ∷ m) =
    ground
      (arith, eq_iff a.currency c, eq_iff a.currency d, eq_iff c d, amount_of-put_amount c d n m)

+ℤ_assoc : (a b c : ℤ) → (a +ℤ b) +ℤ c ≡ a +ℤ (b +ℤ c)
+ℤ_assoc a b c = omega (arith, +ℤ_parts, eq_of_parts)

abbrev pub InRange : List AdminPaymentTransaction → Type 0
InRange ts = All (λ t. IsInt64 t.amount_cents) ts

-- What a map of amounts has of a currency, with what is still to be counted.
abbrev balance : String → List AdminPaymentAmount → List String → List AdminPaymentTransaction → ℤ
balance c totals seen rest = amount_of c totals +ℤ sum_of c (distinct_approved seen rest)

added :
    (c : String) (t : AdminPaymentTransaction) (m m' : List AdminPaymentAmount)
    → IsInt64 t.amount_cents
    → add_unless false t m ≡ ok m'
    → amount_of c m' ≡ (if t.currency =ₛ c then amount_of c m +ℤ t.amount_cents else amount_of c m)
unfolding add_unless
added c t m m' i e =
    let (amount, f, g) = >>=-eq-ok (admin_add_amount (amount_of t.currency m) t.amount_cents) _ e in
    let exact = admin_add_amount-exact (amount_of t.currency m) t.amount_cents amount i f in
    let entry = amount_of-put_amount t.currency c amount m in
    let same = ap (amount_of c) (ok-inj (put_amount t.currency amount m) m' g) in
    ground (arith, eq_iff t.currency c)

abbrev is_new : List String → AdminPaymentTransaction → Bool
is_new seen t = is_approved t && not (contains seen (key_of t))

module _ (seen : List String) (t : AdminPaymentTransaction)
    (ts : List AdminPaymentTransaction) where
  distinct_approved-skip :
      is_new seen t ≡ false → distinct_approved seen (t ∷ ts) ≡ distinct_approved seen ts
  unfolding distinct_approved
  distinct_approved-skip h = rw (h, distinct_approved) refl

  distinct_approved-new :
      is_new seen t ≡ true
      → distinct_approved seen (t ∷ ts) ≡ t ∷ distinct_approved (key_of t ∷ seen) ts
  unfolding distinct_approved
  distinct_approved-new h = rw (h, distinct_approved) refl

+ℤ_zero : (a : ℤ) → a +ℤ pos 0 ≡ a
unfolding ◌+ℤ◌
+ℤ_zero a = ground arith

counted_once :
    (c : String) (t : AdminPaymentTransaction) (ts : List AdminPaymentTransaction) (n n' : ℤ)
    → n' ≡ (if t.currency =ₛ c then n +ℤ t.amount_cents else n)
    → n' +ℤ sum_of c ts ≡ n +ℤ sum_of c (t ∷ ts)
counted_once c t ts n n' h = elim (Bool-cases (t.currency =ₛ c)) [
  | inl e ↦ rw e (ap (λ x. x +ℤ sum_of c ts) (rw e at h) ∙ +ℤ_assoc n t.amount_cents (sum_of c ts))
  | inr e ↦ rw e (ap (λ x. x +ℤ sum_of c ts) (rw e at h))
]

module _ (c : String) (t : AdminPaymentTransaction) (rest : List AdminPaymentTransaction)
    (a : is_approved t ≡ true) (range : IsInt64 t.amount_cents) where
  counted_known :
      (m : List AdminPaymentAmount) (seen : List String)
      → contains seen (key_of t) ≡ true
      → balance c m (with_key (key_of t) seen) rest ≡ balance c m seen (t ∷ rest)
  counted_known m seen h =
      let skip = distinct_approved-skip seen t rest (rw a (rw h refl)) in
      rw h (ap (λ ts. amount_of c m +ℤ sum_of c ts) (sym skip))

  counted_new :
      (m m' : List AdminPaymentAmount) (seen : List String)
      → contains seen (key_of t) ≡ false
      → add_unless false t m ≡ ok m'
      → balance c m' (with_key (key_of t) seen) rest ≡ balance c m seen (t ∷ rest)
  counted_new m m' seen h e =
      let fresh = distinct_approved-new seen t rest (rw a (rw h refl)) in
      let more = added c t m m' range e in
      rw h (
        counted_once c t (distinct_approved (key_of t ∷ seen) rest) (amount_of c m) (amount_of c m')
          more
        ∙ ap (λ ts. amount_of c m +ℤ sum_of c ts) (sym fresh))

  counted :
      (m m' : List AdminPaymentAmount) (seen : List String) (known : Bool)
      → contains seen (key_of t) ≡ known
      → add_unless known t m ≡ ok m'
      → balance c m' (with_key (key_of t) seen) rest ≡ balance c m seen (t ∷ rest)
  unfolding add_unless
  counted m m' seen true h e =
      ap (λ x. balance c x (with_key (key_of t) seen) rest) (sym (ok-inj m m' e))
      ∙ counted_known m seen h
  counted m m' seen false h e = counted_new m m' seen h e

  scan_approved-balance :
      (i : AdminPayment) (s s' : IntentScan)
      → scan_approved i t s ≡ ok s'
      → balance c s'.totals s'.seen rest ≡ balance c s.totals s.seen (t ∷ rest)
  unfolding scan_approved
  scan_approved-balance i s s' e =
      let key = key_of t in
      let (m, _, f) =
        >>=-eq-ok (add_unless (contains s.approved_ids key) t s.approved_totals) _ e in
      let (m', g, h) = >>=-eq-ok (add_unless (contains s.seen key) t s.totals) _ f in
      ap (λ (x : IntentScan). balance c x.totals x.seen rest) (sym (ok-inj _ s' h))
      ∙ counted s.totals m' s.seen (contains s.seen key) refl g

scan_transaction-balance :
    (c : String) (i : AdminPayment) (t : AdminPaymentTransaction)
    (rest : List AdminPaymentTransaction) (s s' : IntentScan)
    → IsInt64 t.amount_cents
    → scan_transaction i t s ≡ ok s'
    → balance c s'.totals s'.seen rest ≡ balance c s.totals s.seen (t ∷ rest)
unfolding scan_transaction
scan_transaction-balance c i t rest s s' range e = elim (Bool-cases (is_approved t)) [
  | inl a ↦ scan_approved-balance c t rest a range i (flagged i t s) s' (rw a at e)
  | inr a ↦
      ap (λ (x : IntentScan). balance c x.totals x.seen rest)
        (sym (ok-inj (flagged i t s) s' (rw a at e)))
      ∙ ap (λ ts. amount_of c s.totals +ℤ sum_of c ts)
          (sym (distinct_approved-skip s.seen t rest (rw a refl)))
]

scan_transactions-balance :
    (c : String) (i : AdminPayment) (ts rest : List AdminPaymentTransaction) (s s' : IntentScan)
    → InRange ts
    → scan_transactions i ts s ≡ ok s'
    → balance c s'.totals s'.seen rest ≡ balance c s.totals s.seen (ts ++ rest)
unfolding scan_transactions
scan_transactions-balance c i [] rest s s' range e =
    ap (λ (x : IntentScan). balance c x.totals x.seen rest) (sym (ok-inj s s' e))
scan_transactions-balance c i (t ∷ ts) rest s s' (r, range) e =
    let (u, f, g) = >>=-eq-ok (scan_transaction i t s) _ e in
    scan_transactions-balance c i ts rest u s' range g
    ∙ scan_transaction-balance c i t (ts ++ rest) s u r f

abbrev pub AllInRange : List AdminPayment → Type 0
AllInRange is = All (λ i. InRange i.transactions) is

module _ (c : String) (b : AdminPaymentBreakdown) (amounts : Option ContractAmounts) where
  scan_intent-balance :
      (i : AdminPayment) (rest : List AdminPaymentTransaction) (p p' : ProposalScan)
      → InRange i.transactions
      → scan_intent b amounts i p ≡ ok p'
      → balance c p'.totals p'.seen rest ≡ balance c p.totals p.seen (i.transactions ++ rest)
  unfolding scan_intent
  scan_intent-balance i rest p p' range e =
      let (s, f, g) = >>=-eq-ok (scan_transactions i i.transactions _) _ e in
      ap (λ (x : ProposalScan). balance c x.totals x.seen rest) (sym (ok-inj _ p' g))
      ∙ scan_transactions-balance c i i.transactions rest _ s range f

  scan_intents-balance :
      (is : List AdminPayment) (p p' : ProposalScan)
      → AllInRange is
      → scan_intents b amounts is p ≡ ok p'
      → balance c p'.totals p'.seen [] ≡ balance c p.totals p.seen (transactions_of is)
  unfolding scan_intents
  scan_intents-balance [] p p' range e =
      ap (λ (x : ProposalScan). balance c x.totals x.seen []) (sym (ok-inj p p' e))
  scan_intents-balance (i ∷ is) p p' (r, range) e =
      let (q, f, g) = >>=-eq-ok (scan_intent b amounts i p) _ e in
      scan_intents-balance is q p' range g ∙ scan_intent-balance i (transactions_of is) p q r f

+ℤ_zero_left : (a : ℤ) → pos 0 +ℤ a ≡ a
unfolding ◌+ℤ◌
+ℤ_zero_left a = ground arith

-- When the policy answers, the approved amount that it shows of a currency is the exact sum of the
-- approved transactions of all intents in that currency, each payment of a processor counted once,
-- where the amounts of the transactions fit an int64.
pub approved_amounts-sum_of :
    (p : AdminPaymentProposal) (r : Projection) (c : String)
    → AllInRange p.intents
    → project_admin_payment_proposal p ≡ ok r
    → amount_of c r.summary.approved_amounts
      ≡ sum_of c (distinct_approved [] (transactions_of p.intents))
unfolding project_admin_payment_proposal distinct_approved
approved_amounts-sum_of p r c range e =
    let (amounts, _, f) = >>=-eq-ok (contract_amounts p.breakdown) _ e in
    let (s, g, h) = >>=-eq-ok (scan_intents p.breakdown amounts p.intents _) _ f in
    ap (λ (x : Projection). amount_of c x.summary.approved_amounts) (sym (ok-inj _ r h))
    ∙ shown_amounts c s.totals
    ∙ sym (+ℤ_zero (amount_of c s.totals))
    ∙ scan_intents-balance c p.breakdown amounts p.intents _ s range g
    ∙ +ℤ_zero_left (sum_of c (distinct_approved [] (transactions_of p.intents)))
