-- ===== src/Payment/AdminPolicy/Shown.antt =====
-- The amounts of internal/domain/payment/admin_policy.go in the order of their currencies.
use loresuelvo_api.Common.{
  ◌≡◌, refl, sym, ap, ◌∙◌, arith, String, false, ◌||◌, ◌=ₛ◌, eq_iff, List, [], ◌∷◌, pos,
  if◌then◌else◌, Bool-cases, inl, inr,
}
use loresuelvo_api.Payment.AdminPolicy.{AdminPaymentAmount, contains, amount_of}
use loresuelvo_api.Payment.AdminPolicy.Scan.{insert_sorted, sort_strings, currencies, amounts_for}

contains-insert_sorted :
    (c s : String) (ss : List String)
    → contains (insert_sorted s ss) c ≡ ((s =ₛ c) || contains ss c)
contains-insert_sorted c s [] = refl
contains-insert_sorted c s (t ∷ ss) = ground (arith, contains-insert_sorted c s ss)

contains-sort_strings :
    (c : String) (ss : List String) → contains (sort_strings ss) c ≡ contains ss c
unfolding sort_strings
contains-sort_strings c [] = refl
contains-sort_strings c (s ∷ ss) =
    contains-insert_sorted c s (sort_strings ss)
    ∙ ap (λ b. (s =ₛ c) || b) (contains-sort_strings c ss)

amount_of-amounts_for :
    (c : String) (cs : List String) (m : List AdminPaymentAmount)
    → amount_of c (amounts_for cs m) ≡ (if contains cs c then amount_of c m else pos 0)
amount_of-amounts_for c [] m = refl
amount_of-amounts_for c (d ∷ cs) m = ground (arith, eq_iff d c, amount_of-amounts_for c cs m)

amount_of-currencies :
    (c : String) (m : List AdminPaymentAmount)
    → contains (currencies m) c ≡ false
    → amount_of c m ≡ pos 0
amount_of-currencies c [] h = refl
amount_of-currencies c (a ∷ m) h = ground (arith, amount_of-currencies c m)

-- The amounts that are shown are those of the map, in the order of the currencies.
pub shown_amounts :
    (c : String) (m : List AdminPaymentAmount)
    → amount_of c (amounts_for (sort_strings (currencies m)) m) ≡ amount_of c m
shown_amounts c m =
    let all = amount_of-amounts_for c (sort_strings (currencies m)) m in
    let same = contains-sort_strings c (currencies m) in
    elim (Bool-cases (contains (currencies m) c)) [
      | inl e ↦ rw (same, e) at all
      | inr e ↦ (rw (same, e) at all) ∙ sym (amount_of-currencies c m e)
    ]
