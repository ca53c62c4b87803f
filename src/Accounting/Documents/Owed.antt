-- ===== src/Accounting/Documents/Owed.antt =====
-- payment.go: what an invoice's payments add up to, and when its row agrees with them.
use wintermute.Prelude.{
  ℕ, suc, ◌+◌, ◌≤◌, ◌<◌, ◌≡◌, ◌≢◌, refl, sym, ap, subst, ◌∙◌, inl, inr, Bool, true, false,
  Bool-cases, some, List, [], ◌∷◌, ◌++◌, All, arith, ◌==◌, nat_eq, ne_of_beq, if◌then◌else◌, ok,
}
use wintermute.Prelude.Int.{pos, pos_part, ◌+ℤ◌}
use wintermute.Prelude.Int64.{two63, IsInt64}
use wintermute.Accounting.Money.{Money}
use wintermute.Accounting.Invoice.{InvoiceStatus, draft, void, Invoice, payment_status}
use wintermute.Accounting.Reports.{is_int64, sql_sum}
use wintermute.Accounting.Documents.{Payment, find_invoice, update_invoice}
use wintermute.Accounting.Documents.Pay.{amounts}
use wintermute.Accounting.Documents.Numbers.{find_here, find_later}

-- What the payments of an invoice add up to, exactly.
unfoldable pub owed : ℕ → List Payment → ℕ
owed id [] = 0
owed id (p ∷ ps) =
    let rest = owed id ps in if p.invoice_id == id then pos_part p.amount + rest else rest

abbrev pub IsPositive : Payment → Type 0
IsPositive p = (n : ℕ) × (p.amount ≡ pos (suc n))

-- A status under which nothing may be paid.
abbrev pub is_idle : InvoiceStatus → Bool
is_idle draft = true
is_idle void = true
is_idle _ = false

-- A document agrees with its payments: what it says is paid is their sum, which its total covers, there are
-- none where nothing may be paid, and its status is the one that follows.
pub record IsPaidRow (ps : List Payment) (i : Invoice) : Type 0 where
  pub paid_is : i.paid ≡ pos (owed i.id ps)
  pub small : IsInt64 i.total
  pub within : owed i.id ps ≤ pos_part i.total
  pub idle : is_idle i.status ≡ true → owed i.id ps ≡ 0
  pub status_is : i.status ≡ payment_status i.status i.paid i.total

-- No id twice.
abbrev pub AreDistinct : List Invoice → Type 0
AreDistinct [] = Unit
AreDistinct (i ∷ is) = All (λ (j : Invoice). j.id ≢ i.id) is × AreDistinct is

pub owed-append :
    (id : ℕ) (ps : List Payment) (p : Payment)
    → owed id (ps ++ (p ∷ [])) ≡ owed id ps + owed id (p ∷ [])
unfolding owed
owed-append id [] p = omega arith
owed-append id (q ∷ ps) p = ground (arith, owed-append id ps p)

pub owed_other : (id : ℕ) (p : Payment) → p.invoice_id ≢ id → owed id (p ∷ []) ≡ 0
unfolding owed
owed_other id p h = ground arith

plus_exact : (a b : ℕ) → pos a +ℤ pos b ≡ pos (a + b)
unfolding ◌+ℤ◌
plus_exact a b = ground arith

amounts_mine :
    (id : ℕ) (p : Payment) (ps : List Payment)
    → (p.invoice_id == id) ≡ true
    → amounts id (p ∷ ps) ≡ p.amount ∷ amounts id ps
unfolding amounts
amounts_mine id p ps e = rw e refl

amounts_other :
    (id : ℕ) (p : Payment) (ps : List Payment)
    → (p.invoice_id == id) ≡ false
    → amounts id (p ∷ ps) ≡ amounts id ps
unfolding amounts
amounts_other id p ps e = rw e refl

in_range : (m : ℕ) → m < two63 → is_int64 (pos m) ≡ true
in_range m h = ground arith

sum_none : (acc id : ℕ) → sql_sum (pos acc) (amounts id []) ≡ ok (pos (acc + 0))
unfolding sql_sum amounts
sum_none acc id = ap (λ n. ok (pos n)) (omega arith)

sum_step :
    (acc n : ℕ) (vs : List Money)
    → acc + n < two63
    → sql_sum (pos acc) (pos n ∷ vs) ≡ sql_sum (pos (acc + n)) vs
unfolding sql_sum
sum_step acc n vs h = rw (plus_exact acc n, in_range (acc + n) h) refl

owed_first :
    (id : ℕ) (p : Payment) (ps : List Payment)
    → (p.invoice_id == id) ≡ true
    → owed id (p ∷ ps) ≡ pos_part p.amount + owed id ps
unfolding owed
owed_first id p ps e = rw e refl

owed_later :
    (id : ℕ) (p : Payment) (ps : List Payment)
    → (p.invoice_id == id) ≡ false
    → owed id (p ∷ ps) ≡ owed id ps
unfolding owed
owed_later id p ps e = rw e refl

-- The sum of positive amounts, which an int64 can hold.
pub sum_of :
    (acc id : ℕ) (ps : List Payment)
    → All IsPositive ps
    → acc + owed id ps < two63
    → sql_sum (pos acc) (amounts id ps) ≡ ok (pos (acc + owed id ps))
unfolding owed
sum_of acc id [] h k = sum_none acc id
sum_of acc id (p ∷ ps) h k = elim (Bool-cases (p.invoice_id == id)) [
  | inl e ↦
      let n = pos_part p.amount in
      let value : (p.amount ≡ pos n) = ground (arith, h.0.1) in
      let o = owed_first id p ps e in
      let small : (acc + n + owed id ps < two63) = omega (arith, o, k) in
      ap (sql_sum (pos acc)) (amounts_mine id p ps e ∙ ap (λ a. a ∷ amounts id ps) value)
      ∙ sum_step acc n (amounts id ps) (omega (arith, small))
      ∙ sum_of (acc + n) id ps h.1 small
      ∙ ap (λ m. ok (pos m)) (omega (arith, o))
  | inr e ↦
      let o = owed_later id p ps e in
      ap (sql_sum (pos acc)) (amounts_other id p ps e)
      ∙ sum_of acc id ps h.1 (omega (arith, o, k))
      ∙ ap (λ m. ok (pos (acc + m))) (sym o)
]

row_same :
    (ps ps' : List Payment) (i : Invoice)
    → owed i.id ps' ≡ owed i.id ps
    → IsPaidRow ps i
    → IsPaidRow ps' i
row_same ps ps' i h r = record {
  paid_is = r.paid_is ∙ ap pos (sym h);
  small = r.small;
  within = omega (arith, h, r.within);
  idle = λ q. h ∙ r.idle q;
  status_is = r.status_is;
}

pub all_same :
    (ps ps' : List Payment) (id : ℕ) (is : List Invoice)
    → ((j : ℕ) → j ≢ id → owed j ps' ≡ owed j ps)
    → All (λ (j : Invoice). j.id ≢ id) is
    → All (IsPaidRow ps) is
    → All (IsPaidRow ps') is
all_same ps ps' id [] same d all = tt
all_same ps ps' id (j ∷ is) same d all =
    (row_same ps ps' j (same j.id d.0) all.0, all_same ps ps' id is same d.1 all.1)

-- A change of one row, and of what the payments say of it, leaves the other rows as they were.
pub All-update :
    (ps ps' : List Payment) (id : ℕ) (f : Invoice → Invoice) (is : List Invoice) (i : Invoice)
    → find_invoice id is ≡ some i
    → AreDistinct is
    → ((j : ℕ) → j ≢ id → owed j ps' ≡ owed j ps)
    → IsPaidRow ps' (f i)
    → All (IsPaidRow ps) is
    → All (IsPaidRow ps') (update_invoice id f is)
unfolding update_invoice
All-update ps ps' id f [] i h d same new all = tt
All-update ps ps' id f (j ∷ is) i h d same new all = elim (Bool-cases (j.id == id)) [
  | inl e ↦
      let mine = find_here id j is i e h in
      let here : (j.id ≡ id) = ground arith in
      rw e (
        subst (λ (x : Invoice). IsPaidRow ps' (f x)) (sym mine) new,
        all_same ps ps' id is same (subst (λ (n : ℕ). All (λ (x : Invoice). x.id ≢ n) is) here d.0)
            all.1,
      )
  | inr e ↦ rw e (
    row_same ps ps' j (same j.id (ne_of_beq j.id id e)) all.0,
    All-update ps ps' id f is i (sym (find_later id j is e) ∙ h) d.1 same new all.1,
  )
]
