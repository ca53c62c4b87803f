-- ===== src/Accounting/Documents/Rows.antt =====
-- The rows of documents and of payments: that they agree, and how a change of one row keeps that.
use wintermute.Prelude.{
  ℕ, suc, ◌<◌, ◌≡◌, ◌≢◌, refl, sym, ap, subst, ◌∙◌, inl, inr, ◌&&◌, Bool-cases, if_intro, some,
  List, [], ◌∷◌, ◌++◌, All, All-append, All-imp, arith, ◌==◌, nat_eq,
}
use wintermute.Accounting.Model.{Books}
use wintermute.Accounting.Invoice.{InvoiceKind, editable, Invoice}
use wintermute.Accounting.Documents.{Sequence, Payment, Desk, find_invoice, update_invoice}
use wintermute.Accounting.Documents.Draft.{without_draft}
use wintermute.Accounting.Documents.Numbers.{find_here, find_later}
use wintermute.Accounting.Documents.Owed.{owed, IsPositive, IsPaidRow, AreDistinct, All-update}

-- Every document agrees with its payments, and the ids are as the tables give them out.
pub record IsPaid (d : Desk) : Type 0 where
  pub rows : All (IsPaidRow d.payments) d.invoices
  pub distinct : AreDistinct d.invoices
  pub fresh : All (λ (i : Invoice). i.id < d.next_invoice) d.invoices
  pub positive : All IsPositive d.payments
  pub known : All (λ (p : Payment). p.invoice_id < d.next_invoice) d.payments

owed_none : (n : ℕ) (ps : List Payment) → All (λ (p : Payment). p.invoice_id < n) ps → owed n ps ≡ 0
unfolding owed
owed_none n [] h = refl
owed_none n (p ∷ ps) h = ground (arith, owed_none n ps h.1)

pub All-find :
    (P : Invoice → Type 0) (id : ℕ) (is : List Invoice) (i : Invoice)
    → find_invoice id is ≡ some i
    → All P is
    → P i × (i.id ≡ id)
unfolding find_invoice
All-find P id [] i h all = ground arith
All-find P id (j ∷ is) i h all = elim (Bool-cases (j.id == id)) [
  | inl e ↦
      let here : (j.id ≡ id) = ground arith in
      subst (λ (x : Invoice). P x × (x.id ≡ id)) (find_here id j is i e h) (all.0, here)
  | inr e ↦ All-find P id is i (sym (find_later id j is e) ∙ h) all.1
]

module _ (id : ℕ) (f : Invoice → Invoice) (keeps : (i : Invoice) → (f i).id ≡ i.id) where
  ids-update :
      (Q : ℕ → Type 0) (is : List Invoice)
      → All (λ (i : Invoice). Q i.id) is
      → All (λ (i : Invoice). Q i.id) (update_invoice id f is)
  unfolding update_invoice
  ids-update Q [] h = tt
  ids-update Q (i ∷ is) h =
      if_intro (λ (x : List Invoice). All (λ (j : Invoice). Q j.id) x) (i.id == id)
        (subst Q (sym (keeps i)) h.0, h.1) (h.0, ids-update Q is h.1)

  distinct-update : (is : List Invoice) → AreDistinct is → AreDistinct (update_invoice id f is)
  unfolding update_invoice
  distinct-update [] h = tt
  distinct-update (i ∷ is) h =
      if_intro AreDistinct (i.id == id)
        (subst (λ (n : ℕ). All (λ (j : Invoice). j.id ≢ n) is) (sym (keeps i)) h.0, h.1)
        (ids-update (λ n. n ≢ i.id) is h.0, distinct-update is h.1)

  -- One row changed, with other payments that concern that row only.
  pub changed :
      (d : Desk) (i : Invoice) (ps : List Payment) (b : Books) (n : ℕ) (q : InvoiceKind → Sequence)
      (bl : List ℕ)
      → IsPaid d
      → find_invoice id d.invoices ≡ some i
      → ((j : ℕ) → j ≢ id → owed j ps ≡ owed j d.payments)
      → All IsPositive ps
      → All (λ (p : Payment). p.invoice_id < d.next_invoice) ps
      → IsPaidRow ps (f i)
      → IsPaid (record d {
        books = b;
        invoices = update_invoice id f d.invoices;
        sequence = q;
        payments = ps;
        next_payment = n;
        billed = bl;
      })
  changed d i ps b n q bl h found same positive known new = record {
    rows = All-update d.payments ps id f d.invoices i found h.distinct same new h.rows;
    distinct = distinct-update d.invoices h.distinct;
    fresh = ids-update (λ m. m < d.next_invoice) d.invoices h.fresh;
    positive = positive;
    known = known;
  }

  -- One row changed, and the payments as they were.
  pub changed_row :
      (d : Desk) (i : Invoice) (b : Books) (q : InvoiceKind → Sequence) (bl : List ℕ)
      → IsPaid d
      → find_invoice id d.invoices ≡ some i
      → (IsPaidRow d.payments i → IsPaidRow d.payments (f i))
      → IsPaid (record d {
        books = b;
        invoices = update_invoice id f d.invoices;
        sequence = q;
        billed = bl;
      })
  changed_row d i b q bl h found new =
      changed d i d.payments b d.next_payment q bl h found (λ j e. refl) h.positive h.known
        (new (All-find (IsPaidRow d.payments) id d.invoices i found h.rows).0)

distinct-append :
    (is : List Invoice) (new : Invoice)
    → AreDistinct is
    → All (λ (i : Invoice). i.id < new.id) is
    → AreDistinct (is ++ (new ∷ []))
distinct-append [] new h k = (tt, tt)
distinct-append (i ∷ is) new h k = (
  All-append (λ (j : Invoice). j.id ≢ i.id) is (new ∷ []) h.0 ((λ e. omega (arith, e, k.0)), tt),
  distinct-append is new h.1 k.1,
)

-- A document of the next id, of which nothing is paid.
pub with_new :
    (d : Desk) (new : Invoice)
    → IsPaid d
    → new.id ≡ d.next_invoice
    → (owed new.id d.payments ≡ 0 → IsPaidRow d.payments new)
    → IsPaid (record d { invoices = d.invoices ++ (new ∷ []); next_invoice = suc d.next_invoice })
with_new d new h e row = record {
  rows =
      All-append (IsPaidRow d.payments) d.invoices (new ∷ []) h.rows
        (row (ap (λ n. owed n d.payments) e ∙ owed_none d.next_invoice d.payments h.known), tt);
  distinct =
      distinct-append d.invoices new h.distinct
        (subst (λ (n : ℕ). All (λ (i : Invoice). i.id < n) d.invoices) (sym e) h.fresh);
  fresh =
      All-append (λ (i : Invoice). i.id < suc d.next_invoice) d.invoices (new ∷ [])
        (All-imp _ _ (λ i k. omega (arith, k)) d.invoices h.fresh) (omega (arith, e), tt);
  positive = h.positive;
  known = All-imp _ _ (λ p k. omega (arith, k)) d.payments h.known;
}

All-without :
    (P : Invoice → Type 0) (id : ℕ) (is : List Invoice) → All P is → All P (without_draft id is)
unfolding without_draft
All-without P id [] h = tt
All-without P id (i ∷ is) h =
    if_intro (All P) (i.id == id && editable i.status) (All-without P id is h.1)
      (h.0, All-without P id is h.1)

distinct-without : (id : ℕ) (is : List Invoice) → AreDistinct is → AreDistinct (without_draft id is)
unfolding without_draft
distinct-without id [] h = tt
distinct-without id (i ∷ is) h =
    if_intro AreDistinct (i.id == id && editable i.status) (distinct-without id is h.1)
      (All-without (λ j. j.id ≢ i.id) id is h.0, distinct-without id is h.1)

pub without_draft-IsPaid :
    (id : ℕ) (d : Desk) → IsPaid d → IsPaid (record d { invoices = without_draft id d.invoices })
without_draft-IsPaid id d h = record {
  rows = All-without (IsPaidRow d.payments) id d.invoices h.rows;
  distinct = distinct-without id d.invoices h.distinct;
  fresh = All-without (λ i. i.id < d.next_invoice) id d.invoices h.fresh;
  positive = h.positive;
  known = h.known;
}
