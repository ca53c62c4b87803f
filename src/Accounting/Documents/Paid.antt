-- ===== src/Accounting/Documents/Paid.antt =====
-- invoice.go and payment.go: each change of a document's row, against its payments.
use wintermute.Prelude.{
  ℕ, zero, suc, ◌+◌, ◌≤◌, ◌≡◌, refl, sym, ap, subst, ◌∙◌, inl, inr, true, false, not, Bool-cases,
  if_intro, List, arith, nat_eq, if◌then◌else◌, ok, refuse_if,
}
use wintermute.Prelude.Int.{ℤ, pos, negsuc, pos_part, int_beq, ltb_ℤ, leb_ℤ, ◌-ℤ◌}
use wintermute.Prelude.Int64.{IsInt64, sub64, wrap, residue, signed}
use wintermute.Prelude.Str.{Str}
use wintermute.Prelude.Results.{seq-ok, refuse_if-ok}
use wintermute.Accounting.Money.{Money}
use wintermute.Accounting.Invoice.{
  InvoiceStatus, draft, issued, part_paid, paid_up, void, editable, Invoice, outstanding,
  payment_status,
}
use wintermute.Accounting.Documents.{Payment, stamped}
use wintermute.Accounting.Documents.Steps.{void_check, may_void}
use wintermute.Accounting.Documents.Pay.{settled, pay_check, amount_check}
use wintermute.Accounting.Documents.Draft.{rewritten}
use wintermute.Accounting.Documents.Owed.{owed, IsPaidRow, is_idle}

draft_only : (s : InvoiceStatus) → editable s ≡ true → s ≡ draft
unfolding editable
draft_only draft h = refl
draft_only issued h = ground arith
draft_only part_paid h = ground arith
draft_only paid_up h = ground arith
draft_only void h = ground arith

-- A draft, whatever its total, of which nothing is paid.
pub draft_row :
    (ps : List Payment) (i : Invoice)
    → i.status ≡ draft
    → owed i.id ps ≡ 0
    → i.paid ≡ pos 0
    → IsInt64 i.total
    → IsPaidRow ps i
unfolding payment_status
draft_row ps i d o p t = record {
  paid_is = p ∙ ap pos (sym o);
  small = t;
  within = omega (arith, o);
  idle = λ q. o;
  status_is = subst (λ (s : InvoiceStatus). s ≡ payment_status s i.paid i.total) (sym d) refl;
}

nothing_owed :
    (ps : List Payment) (i : Invoice) → editable i.status ≡ true → IsPaidRow ps i → owed i.id ps ≡ 0
nothing_owed ps i e r =
    r.idle (subst (λ (s : InvoiceStatus). is_idle s ≡ true) (sym (draft_only i.status e)) refl)

pub rewritten-IsPaidRow :
    (ps : List Payment) (new i : Invoice)
    → IsInt64 new.total
    → IsPaidRow ps i
    → IsPaidRow ps (rewritten new i)
rewritten-IsPaidRow ps new i t r = elim (Bool-cases (editable i.status)) [
  | inr e ↦ rw e r
  | inl e ↦
      let o = nothing_owed ps i e r in
      rw e (draft_row ps _ (draft_only i.status e) o (r.paid_is ∙ ap pos o) t)
]

pub stamped-IsPaidRow :
    (ps : List Payment) (number : Str) (entry : ℕ) (at : Str) (i : Invoice)
    → IsPaidRow ps i
    → IsPaidRow ps (stamped number entry at i)
unfolding payment_status
stamped-IsPaidRow ps number entry at i r = elim (Bool-cases (editable i.status)) [
  | inr e ↦ rw e r
  | inl e ↦
      let o = nothing_owed ps i e r in
      rw e (record {
        paid_is = r.paid_is;
        small = r.small;
        within = r.within;
        idle = λ q. o;
        status_is = rw (r.paid_is ∙ ap pos o) refl;
      })
]

zero_of : (m : Money) → not (int_beq m (pos 0)) ≡ false → m ≡ pos 0
zero_of m h = ground arith

past :
    (paid total : Money)
    → is_idle
        (if int_beq paid (pos 0) then issued else if ltb_ℤ paid total then part_paid else paid_up)
      ≡ false
past paid total =
    if_intro (λ (s : InvoiceStatus). is_idle s ≡ false) (int_beq paid (pos 0)) refl
      (if_intro (λ (s : InvoiceStatus). is_idle s ≡ false) (ltb_ℤ paid total) refl refl)

past_again :
    (paid total : Money)
    → let s =
        if int_beq paid (pos 0) then issued else if ltb_ℤ paid total then part_paid else paid_up in
      payment_status s paid total ≡ s
unfolding payment_status
past_again paid total =
    let s =
      if int_beq paid (pos 0) then issued else if ltb_ℤ paid total then part_paid else paid_up in
    if_intro (λ (x : InvoiceStatus). payment_status x paid total ≡ s) (int_beq paid (pos 0)) refl
      (if_intro (λ (x : InvoiceStatus). payment_status x paid total ≡ s) (ltb_ℤ paid total) refl
        refl)

void_check-paid : (inv : Invoice) (s : InvoiceStatus) → void_check inv s ≡ ok tt → inv.paid ≡ pos 0
void_check-paid inv draft h = ground arith
void_check-paid inv void h = ground arith
void_check-paid inv issued h = zero_of inv.paid (refuse_if-ok _ _ h)
void_check-paid inv part_paid h = zero_of inv.paid (refuse_if-ok _ _ h)
void_check-paid inv paid_up h = zero_of inv.paid (refuse_if-ok _ _ h)

pos_inj : {m n : ℕ} → pos m ≡ pos n → m ≡ n
pos_inj h = ap pos_part h

pub void-IsPaidRow :
    (ps : List Payment) (inv i : Invoice)
    → may_void inv ≡ ok tt
    → i.paid ≡ inv.paid
    → IsPaidRow ps i
    → IsPaidRow ps (record i { status = void })
unfolding may_void payment_status
void-IsPaidRow ps inv i h same r =
    let zero_paid = same ∙ void_check-paid inv inv.status h in
    record {
      paid_is = r.paid_is;
      small = r.small;
      within = r.within;
      idle = λ q. pos_inj (sym r.paid_is ∙ zero_paid);
      status_is = refl;
    }

idle_stays :
    (s : InvoiceStatus) (paid total : Money) → is_idle (payment_status s paid total) ≡ is_idle s
unfolding payment_status
idle_stays draft paid total = refl
idle_stays void paid total = refl
idle_stays issued paid total = past paid total
idle_stays part_paid paid total = past paid total
idle_stays paid_up paid total = past paid total

status_again :
    (s : InvoiceStatus) (paid total : Money)
    → payment_status s paid total ≡ payment_status (payment_status s paid total) paid total
unfolding payment_status
status_again draft paid total = refl
status_again void paid total = refl
status_again issued paid total = sym (past_again paid total)
status_again part_paid paid total = sym (past_again paid total)
status_again paid_up paid total = sym (past_again paid total)

-- The row once its total of payments is worked out again.
pub settled-IsPaidRow :
    (ps : List Payment) (i : Invoice) (paid : Money)
    → paid ≡ pos (owed i.id ps)
    → IsInt64 i.total
    → owed i.id ps ≤ pos_part i.total
    → (is_idle i.status ≡ true → owed i.id ps ≡ 0)
    → IsPaidRow ps (settled paid i)
settled-IsPaidRow ps i paid p t w o = record {
  paid_is = p;
  small = t;
  within = w;
  idle = λ q. o (sym (idle_stays i.status paid i.total) ∙ q);
  status_is = status_again i.status paid i.total;
}

fits :
    (total : ℤ) (o n : ℕ)
    → IsInt64 total
    → o ≤ pos_part total
    → ltb_ℤ (sub64 total (pos o)) (pos (suc n)) ≡ false
    → o + suc n ≤ pos_part total
unfolding sub64 wrap residue signed ◌-ℤ◌
fits (pos t) o n h k l = ground arith
fits (negsuc t) o n h k l = ground arith

amount_of : (amount : Money) → leb_ℤ amount (pos 0) ≡ false → (n : ℕ) × (amount ≡ pos (suc n))
amount_of (pos zero) h = ground arith
amount_of (pos (suc n)) h = (n, refl)
amount_of (negsuc n) h = ground arith

amount_check_of :
    (inv : Invoice) (amount : Money) (o : ℕ)
    → inv.paid ≡ pos o
    → IsInt64 inv.total
    → o ≤ pos_part inv.total
    → amount_check inv amount ≡ ok tt
    → (n : ℕ) × (amount ≡ pos (suc n)) × (o + suc n ≤ pos_part inv.total)
unfolding outstanding
amount_check_of inv amount o p t w h =
    let both = seq-ok (refuse_if (leb_ℤ amount (pos 0)) _) _ tt h in
    let (n, e) = amount_of amount (refuse_if-ok _ _ both.0) in
    let room = refuse_if-ok (ltb_ℤ (sub64 inv.total inv.paid) amount) _ both.1 in
    (
      n,
      e,
      fits inv.total o n t w (
          ap (λ x. ltb_ℤ (sub64 inv.total x) (pos (suc n))) (sym p)
          ∙ ap (λ x. ltb_ℤ (sub64 inv.total inv.paid) x) (sym e)
          ∙ room),
    )

-- What `RecordPayment` lets through: a positive amount that the total still covers, on a document that may
-- be paid.
pub pay_check_of :
    (inv : Invoice) (amount : Money) (s : InvoiceStatus) (o : ℕ)
    → inv.paid ≡ pos o
    → IsInt64 inv.total
    → o ≤ pos_part inv.total
    → pay_check inv amount s ≡ ok tt
    → (is_idle s ≡ false) × (n : ℕ) × (amount ≡ pos (suc n)) × (o + suc n ≤ pos_part inv.total)
pay_check_of inv amount draft o p t w h = ground arith
pay_check_of inv amount void o p t w h = ground arith
pay_check_of inv amount paid_up o p t w h = ground arith
pay_check_of inv amount issued o p t w h =
    let (n, e, w') = amount_check_of inv amount o p t w h in (refl, n, e, w')
pay_check_of inv amount part_paid o p t w h =
    let (n, e, w') = amount_check_of inv amount o p t w h in (refl, n, e, w')
