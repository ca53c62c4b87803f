-- ===== src/Accounting/Documents/Removed.antt =====
-- payment.go DeletePayment: what is left of an invoice's payments once one of them is gone.
use wintermute.Prelude.{
  ℕ, ◌+◌, ◌≡◌, refl, sym, subst, ◌∙◌, inl, inr, true, false, Bool-cases, if_intro, Option, some,
  List, [], ◌∷◌, All, arith, ◌==◌, nat_eq,
}
use wintermute.Accounting.Documents.{Payment}
use wintermute.Accounting.Documents.Pay.{find_payment, without_payment}
use wintermute.Accounting.Documents.Owed.{owed}

-- What is left once the payment with an id is gone.
find_other :
    (id : ℕ) (q : Payment) (ps : List Payment)
    → (q.id == id) ≡ false
    → find_payment id (q ∷ ps) ≡ find_payment id ps
unfolding find_payment
find_other id q ps e = rw e refl

find_mine :
    (id : ℕ) (q : Payment) (ps : List Payment)
    → (q.id == id) ≡ true
    → find_payment id (q ∷ ps) ≡ some q
unfolding find_payment
find_mine id q ps e = rw e refl

some_payment : {p q : Payment} → ◌≡◌ {A = Option Payment} (some p) (some q) → p ≡ q
some_payment h = ground arith

owed_cons :
    (j : ℕ) (p : Payment) (ps : List Payment) → owed j (p ∷ ps) ≡ owed j ps + owed j (p ∷ [])
unfolding owed
owed_cons j p ps = ground arith

if_intro_owed :
    (j : ℕ) (q : Payment) (ps rest : List Payment) (p : Payment)
    → owed j ps ≡ owed j rest + owed j (p ∷ [])
    → owed j (q ∷ ps) ≡ owed j (q ∷ rest) + owed j (p ∷ [])
if_intro_owed j q ps rest p h = owed_cons j q ps ∙ omega (arith, h, owed_cons j q rest)

found_none : (id : ℕ) (p : Payment) (P : Type 0) → find_payment id [] ≡ some p → P
unfolding find_payment
found_none id p P h = ground arith

pub owed-without :
    (id j : ℕ) (ps : List Payment) (p : Payment)
    → find_payment id ps ≡ some p
    → owed j ps ≡ owed j (without_payment id ps) + owed j (p ∷ [])
unfolding owed without_payment
owed-without id j [] p h = found_none id p _ h
owed-without id j (q ∷ ps) p h = elim (Bool-cases (q.id == id)) [
  | inl e ↦
      let is : (q ≡ p) = some_payment (sym (find_mine id q ps e) ∙ h) in
      rw e (
        subst (λ (x : Payment). owed j (x ∷ ps) ≡ owed j ps + owed j (p ∷ [])) (sym is)
          (owed_cons j p ps))
  | inr e ↦
      let rest = owed-without id j ps p (sym (find_other id q ps e) ∙ h) in
      rw e (if_intro_owed j q ps (without_payment id ps) p rest)
]

pub All-without_payment :
    (P : Payment → Type 0) (id : ℕ) (ps : List Payment) → All P ps → All P (without_payment id ps)
unfolding without_payment
All-without_payment P id [] h = tt
All-without_payment P id (p ∷ ps) h =
    if_intro (All P) (p.id == id) h.1 (h.0, All-without_payment P id ps h.1)
