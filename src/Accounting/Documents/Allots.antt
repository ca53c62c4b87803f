-- ===== src/Accounting/Documents/Allots.antt =====
-- invoice_repo.go allocateNumberTx: each call gives out the numbers that its documents get, and no others.
use mathlib.Core.List.{Perm, append-nil}
use mathlib.Core.List.Perm
use wintermute.Prelude.{
  ℕ, ◌+◌, ◌≡◌, refl, sym, ap, subst, ◌∙◌, inl, inr, Bool, true, false, ◌&&◌, Bool-cases, Option,
  none, some, if_intro, List, [], ◌∷◌, ◌++◌, arith, ◌==◌, nat_eq, if◌then◌else◌, nat_beq, Result,
  ok, err, ◌>>=◌,
}
use wintermute.Prelude.Int.{pos, int_beq, ltb_ℤ}
use wintermute.Prelude.Str.{Str}
use wintermute.Prelude.Results.{bind-ok, ok_inj}
use wintermute.Accounting.Money.{Money}
use wintermute.Accounting.Model.{Books, Clock, JournalEntry}
use wintermute.Accounting.Invoice.{
  InvoiceKind, InvoiceStatus, draft, issued, part_paid, paid_up, void, editable, Invoice,
  payment_status,
}
use wintermute.Accounting.Documents.{
  Payment, Desk, DocFault, find_invoice, joined, get_invoice, update_invoice, name_of, lift,
}
use wintermute.Accounting.Ledger.{reverse}
use wintermute.Accounting.Reports.{sql_sum}
use wintermute.Accounting.Documents.Steps.{undo_entry}
use wintermute.Accounting.Documents.Pay.{amounts, settled, recalc, counted, recount}
use wintermute.Accounting.Documents.Draft.{rewritten, without_draft}
use wintermute.Accounting.Documents.Numbers.{listed, entry_of, numbers, numbers_same, serials}

-- From one state to a later one, the documents of a kind get the next numbers of its sequence.
pub record Allots (k : InvoiceKind) (d d' : Desk) : Type 0 where
  pub count : ℕ
  pub counted :
      d'.sequence k ≡ record (d.sequence k) { next_value = (d.sequence k).next_value + count }
  pub listed_all :
      Perm
        (numbers k d'.invoices)
        (numbers k d.invoices ++ serials (d.sequence k) (d.sequence k).next_value count)

pub Allots-refl :
    (k : InvoiceKind) (d d' : Desk)
    → numbers k d'.invoices ≡ numbers k d.invoices
    → d'.sequence k ≡ d.sequence k
    → Allots k d d'
unfolding serials
Allots-refl k d d' h q = record {
  count = 0;
  counted = q ∙ ap (λ n. record (d.sequence k) { next_value = n }) (omega arith);
  listed_all =
      subst (Perm (numbers k d'.invoices)) (sym (append-nil (numbers k d.invoices)))
        (subst (Perm (numbers k d'.invoices)) h (Perm.refl (numbers k d'.invoices)));
}

joined_of :
    (clients : List (ℕ × Str)) (o : Option Invoice) (inv : Invoice)
    → joined clients o ≡ ok inv
    → (i : Invoice) × (o ≡ some i) × (record i { client_name = name_of i.client_id clients } ≡ inv)
joined_of clients none inv h = ground arith
joined_of clients (some i) inv h = (i, refl, ok_inj h)

-- The row that a call has read.
pub get_of :
    (id : ℕ) (d : Desk) (inv : Invoice)
    → get_invoice id d ≡ ok inv
    → (i : Invoice) × (find_invoice id d.invoices ≡ some i)
      × (record i { client_name = name_of i.client_id d.clients } ≡ inv)
unfolding get_invoice
get_of id d inv h = joined_of d.clients (find_invoice id d.invoices) inv h

past :
    (paid total : Money)
    → editable
        (if int_beq paid (pos 0) then issued else if ltb_ℤ paid total then part_paid else paid_up)
      ≡ false
unfolding editable
past paid total =
    if_intro (λ (s : InvoiceStatus). editable s ≡ false) (int_beq paid (pos 0)) refl
      (if_intro (λ (s : InvoiceStatus). editable s ≡ false) (ltb_ℤ paid total) refl refl)

editable-payment_status :
    (s : InvoiceStatus) (paid total : Money) → editable (payment_status s paid total) ≡ editable s
unfolding payment_status editable
editable-payment_status draft paid total = refl
editable-payment_status void paid total = refl
editable-payment_status issued paid total = past paid total
editable-payment_status part_paid paid total = past paid total
editable-payment_status paid_up paid total = past paid total

pub settled_entry :
    (k : InvoiceKind) (paid : Money) (i : Invoice) → entry_of k (settled paid i) ≡ entry_of k i
settled_entry k paid i =
    ap (λ e. if e then [] else listed k i.kind i.number)
      (editable-payment_status i.status paid i.total)

pub rewritten_entry :
    (k : InvoiceKind) (new i : Invoice) → entry_of k (rewritten new i) ≡ entry_of k i
rewritten_entry k new i =
    if_intro (λ (x : Invoice). entry_of k x ≡ entry_of k i) (editable i.status) refl refl

and_false : (c e : Bool) → e ≡ false → (c && e) ≡ false
and_false c e h = ground arith

pub numbers-without_draft :
    (k : InvoiceKind) (id : ℕ) (is : List Invoice) → numbers k (without_draft id is) ≡ numbers k is
unfolding numbers without_draft
numbers-without_draft k id [] = refl
numbers-without_draft k id (i ∷ is) =
    let rest = numbers-without_draft k id is in
    elim (Bool-cases (editable i.status)) [
      | inl e ↦
          let nothing : (entry_of k i ≡ []) =
            ap (λ x. if x then [] else listed k i.kind i.number) e in
          if_intro (λ (x : List Invoice). numbers k x ≡ entry_of k i ++ numbers k is)
            (i.id == id && editable i.status) (rest ∙ ap (λ x. x ++ numbers k is) (sym nothing))
            (ap (λ x. entry_of k i ++ x) rest)
      | inr e ↦ rw (and_false (i.id == id) (editable i.status) e) (ap (λ x. entry_of k i ++ x) rest)
    ]

pub recalc_of :
    (id : ℕ) (d d' : Desk)
    → recalc id d ≡ ok d'
    → (paid : Money) × (record d { invoices = update_invoice id (settled paid) d.invoices } ≡ d')
unfolding recalc
recalc_of id d d' h =
    let found = bind-ok (get_invoice id d) _ d' h in
    let summed = bind-ok (lift (sql_sum (pos 0) (amounts id d.payments))) _ d' found.2 in
    (summed.0, ok_inj summed.2)

-- A change of the books and of the payments, and the new total that follows from it.
pub recalc-Allots :
    (k : InvoiceKind) (id : ℕ) (d d' : Desk) (b : Books) (ps : List Payment) (n : ℕ)
    → recalc id (record d { books = b; payments = ps; next_payment = n }) ≡ ok d'
    → Allots k d d'
unfolding recalc
recalc-Allots k id d d' b ps n h =
    let d1 = record d { books = b; payments = ps; next_payment = n } in
    let found = bind-ok (get_invoice id d1) _ d' h in
    let row = get_of id d1 found.0 found.1 in
    let set = recalc_of id d1 d' h in
    subst (Allots k d) set.1 (
      Allots-refl k d _
        (numbers_same k id (settled set.0) d.invoices row.0 row.1 (settled_entry k set.0 row.0))
        refl)

pub recount-Allots {ℓ} :
    {A : Type ℓ} (k : InvoiceKind) (a : A) (id : ℕ) (d : Desk) (b : Books) (ps : List Payment)
    (n : ℕ)
    → Allots k d (recount a id (record d { books = b; payments = ps; next_payment = n })).1
unfolding recount
recount-Allots k a id d b ps n = from (recalc id _) refl
  where
    from :
        (m : Result DocFault Desk)
        → recalc id (record d { books = b; payments = ps; next_payment = n }) ≡ m
        → Allots k d (counted a (record d { books = b; payments = ps; next_payment = n }) m).1
    from (ok d') e = recalc-Allots k id d d' b ps n e
    from (err f) e = Allots-refl k d _ refl refl

pub undo_of :
    (now : Clock) (entry : ℕ) (memo : Str) (d d' : Desk)
    → undo_entry now entry memo d ≡ ok d'
    → (b : Books) × (record d { books = b } ≡ d')
unfolding undo_entry
undo_of now entry memo d d' h = elim (Bool-cases (nat_beq entry 0)) [
  | inl e ↦ (d.books, ok_inj (sym (skip e) ∙ h))
  | inr e ↦
      let done =
        bind-ok (lift (reverse now entry now.today memo d.books)) _ d' (sym (work e) ∙ h) in
      (done.0.1, ok_inj done.2)
]
  where
    skip : nat_beq entry 0 ≡ true → undo_entry now entry memo d ≡ ok d
    skip e = rw e refl

    work :
        nat_beq entry 0 ≡ false
        → undo_entry now entry memo d ≡ (
            lift (reverse now entry now.today memo d.books) >>= λ (r : JournalEntry × Books).
            ok (record d { books = r.1 }))
    work e = rw e refl
