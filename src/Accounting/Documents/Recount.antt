-- ===== src/Accounting/Documents/Recount.antt =====
-- payment.go: the update of a document once its payments have changed, which keeps it in agreement with them.
use wintermute.Prelude.{
  ℕ, suc, ◌+◌, ◌≤◌, ◌<◌, ◌≡◌, ◌≢◌, refl, sym, ap, subst, ◌∙◌, inl, inr, true, false, Bool-cases,
  Option, none, some, Option-cases, List, [], ◌∷◌, ◌++◌, All, All-append, arith, ◌==◌, nat_eq,
  ne_of_beq, ok,
}
use wintermute.Prelude.Int.{pos, pos_part}
use wintermute.Prelude.Int64.{two63}
use wintermute.Accounting.Model.{Books}
use wintermute.Accounting.Invoice.{Invoice}
use wintermute.Accounting.Documents.{Payment, Desk, get_invoice, find_invoice, update_invoice}
use wintermute.Accounting.Documents.Pay.{settled, recalc, recount}
use wintermute.Accounting.Documents.Numbers.{find_later}
use wintermute.Accounting.Documents.Owed.{
  owed, IsPositive, IsPaidRow, is_idle, owed-append, owed_other, sum_of, all_same,
}
use wintermute.Accounting.Documents.Rows.{IsPaid, All-find, changed}
use wintermute.Accounting.Documents.Paid.{settled-IsPaidRow}

-- What the payments say of the row of an id: its total covers them, and there are none where nothing may be
-- paid.
pub record IsCovered (ps : List Payment) (i : Invoice) : Type 0 where
  pub within : owed i.id ps ≤ pos_part i.total
  pub idle : is_idle i.status ≡ true → owed i.id ps ≡ 0

find_none :
    (id : ℕ) (is : List Invoice) → find_invoice id is ≡ none → All (λ (j : Invoice). j.id ≢ id) is
unfolding find_invoice
find_none id [] h = tt
find_none id (j ∷ is) h = elim (Bool-cases (j.id == id)) [
  | inl e ↦ ground (arith, e)
  | inr e ↦ (ne_of_beq j.id id e, find_none id is (sym (later e) ∙ h))
]
  where
    later : (j.id == id) ≡ false → find_invoice id (j ∷ is) ≡ find_invoice id is
    later e = find_later id j is e

module _ {A : Type 0} (a : A) (id : ℕ) (d : Desk) (b : Books) (ps : List Payment) (n : ℕ) where
  abbrev after : Desk
  after = record d { books = b; payments = ps; next_payment = n }

  recount-none : find_invoice id d.invoices ≡ none → (recount a id after).1 ≡ after
  unfolding recount recalc get_invoice
  recount-none h = rw h refl

  -- The sum of the payments fits, so the total is worked out again.
  recount-some :
      (i : Invoice)
      → find_invoice id d.invoices ≡ some i
      → All IsPositive ps
      → owed id ps < two63
      → (recount a id after).1
        ≡ record after { invoices = update_invoice id (settled (pos (0 + owed id ps))) d.invoices }
  unfolding recount recalc get_invoice
  recount-some i h positive small = rw (h, sum_of 0 id ps positive (omega (arith, small))) refl

  recount-ok :
      (i : Invoice)
      → find_invoice id d.invoices ≡ some i
      → All IsPositive ps
      → owed id ps < two63
      → (recount a id after).0 ≡ ok a
  unfolding recount recalc get_invoice
  recount-ok i h positive small = rw (h, sum_of 0 id ps positive (omega (arith, small))) refl

  -- A document whose total of payments is worked out again, over payments that changed for it alone.
  pub recount-IsPaid :
      IsPaid d
      → ((j : ℕ) → j ≢ id → owed j ps ≡ owed j d.payments)
      → All IsPositive ps
      → All (λ (p : Payment). p.invoice_id < d.next_invoice) ps
      → ((i : Invoice)
          → find_invoice id d.invoices ≡ some i
          → IsPaidRow d.payments i
          → i.id ≡ id
          → IsCovered ps i)
      → IsPaid (recount a id after).1
  recount-IsPaid all same positive known covered =
      elim (Option-cases (find_invoice id d.invoices)) [
        | inl e ↦ subst IsPaid (sym (recount-none e)) (record {
          rows = all_same d.payments ps id d.invoices same (find_none id d.invoices e) all.rows;
          distinct = all.distinct;
          fresh = all.fresh;
          positive = positive;
          known = known;
        })
        | inr (i, e) ↦
            let row = All-find (IsPaidRow d.payments) id d.invoices i e all.rows in
            let c : IsCovered ps i = covered i e row.0 row.1 in
            let here : (owed i.id ps ≡ owed id ps) = ap (λ m. owed m ps) row.1 in
            let total = pos (0 + owed id ps) in
            let room : (owed id ps < two63) = omega (arith, here, c.within, row.0.small.0) in
            subst IsPaid (sym (recount-some i e positive room)) (
              changed id (settled total) (λ x. refl) d i ps b n d.sequence d.billed all e same
                positive known
                (settled-IsPaidRow ps i total (ap pos (omega (arith, here))) row.0.small c.within
                  c.idle))
      ]

owed_mine : (p : Payment) (n : ℕ) → p.amount ≡ pos (suc n) → owed p.invoice_id (p ∷ []) ≡ suc n
unfolding owed
owed_mine p n h = ground arith

-- A payment more that its document still covers.
module _ (p : Payment) (d : Desk) (i : Invoice) (n : ℕ) (all : IsPaid d)
    (found : find_invoice p.invoice_id d.invoices ≡ some i) (amount : p.amount ≡ pos (suc n))
    (room : owed i.id d.payments + suc n ≤ pos_part i.total) where
  abbrev more : List Payment
  more = d.payments ++ (p ∷ [])

  more-IsPositive : All IsPositive more
  more-IsPositive = All-append IsPositive d.payments (p ∷ []) all.positive ((n, amount), tt)

  owed-more : owed i.id more ≡ owed i.id d.payments + suc n
  owed-more =
      let row = All-find (λ j. j.id < d.next_invoice) p.invoice_id d.invoices i found all.fresh in
      subst (λ m. owed m more ≡ owed m d.payments + suc n) (sym row.1)
        (omega (arith, owed-append p.invoice_id d.payments p, owed_mine p n amount))

  pub more-IsPaid :
      {A : Type 0} (a : A) (b : Books)
      → is_idle i.status ≡ false
      → IsPaid
          (recount a p.invoice_id
            (record d { books = b; payments = more; next_payment = suc d.next_payment })).1
  more-IsPaid a b busy =
      let row = All-find (λ j. j.id < d.next_invoice) p.invoice_id d.invoices i found all.fresh in
      recount-IsPaid a p.invoice_id d b more (suc d.next_payment) all
        (λ j e. omega (arith, owed-append j d.payments p, owed_other j p (λ q. e (sym q))))
        more-IsPositive
        (All-append (λ q. q.invoice_id < d.next_invoice) d.payments (p ∷ []) all.known
          (subst (λ m. m < d.next_invoice) row.1 row.0, tt))
        (λ j f _ e.
          subst (IsCovered more) (some_row (sym found ∙ f))
            (record { within = omega (arith, owed-more, room); idle = λ q. ground arith }))
    where
      some_row : {x y : Invoice} → ◌≡◌ {A = Option Invoice} (some x) (some y) → x ≡ y
      some_row e = ground arith

  pub recount-more :
      {A : Type 0} (a : A) (b : Books)
      → (recount a p.invoice_id
          (record d { books = b; payments = more; next_payment = suc d.next_payment })).0
        ≡ ok a
  recount-more a b =
      let row = All-find (IsPaidRow d.payments) p.invoice_id d.invoices i found all.rows in
      let here : (owed i.id more ≡ owed p.invoice_id more) = ap (λ m. owed m more) row.1 in
      recount-ok a p.invoice_id d b more (suc d.next_payment) i found more-IsPositive
        (omega (arith, here, owed-more, room, row.0.small.0))
