-- ===== src/Accounting/Documents/Numbers.antt =====
-- invoice_repo.go: the numbers that documents get, over any run of calls.
use mathlib.Core.List.{Perm, append_assoc, perm_append_comm}
use mathlib.Core.List.Perm
use wintermute.Prelude.{
  ℕ, zero, suc, ◌+◌, ◌≡◌, refl, sym, ap, subst, ◌∙◌, inl, inr, true, false, Bool-cases, Option,
  some, List, [], ◌∷◌, ◌++◌, arith, ◌==◌, nat_eq, if◌then◌else◌,
}
use wintermute.Prelude.Str.{Str}
use wintermute.Accounting.Invoice.{InvoiceKind, invoice, credit_note, editable, Invoice}
use wintermute.Accounting.Documents.{Sequence, find_invoice, update_invoice, serial}

-- A document that has left the drafts is listed under its kind.
abbrev pub listed : InvoiceKind → InvoiceKind → Str → List Str
listed invoice invoice n = n ∷ []
listed credit_note credit_note n = n ∷ []
listed _ _ n = []

abbrev pub entry_of : InvoiceKind → Invoice → List Str
entry_of k i = if editable i.status then [] else listed k i.kind i.number

-- The numbers of the documents of a kind that are no drafts, in the order of their rows.
unfoldable pub numbers : InvoiceKind → List Invoice → List Str
numbers k [] = []
numbers k (i ∷ rest) = entry_of k i ++ numbers k rest

-- The numbers that a sequence gives out from `n` on.
unfoldable pub serials : Sequence → ℕ → ℕ → List Str
serials q n zero = []
serials q n (suc count) = serial q n ∷ serials q (suc n) count

pub serials-append :
    (q : Sequence) (n a b : ℕ) → serials q n (a + b) ≡ serials q n a ++ serials q (n + a) b
unfolding serials
serials-append q n zero b = ap (serials q n) (omega arith) ∙ ap (λ m. serials q m b) (omega arith)
serials-append q n (suc a) b =
    let first : (suc a + b ≡ suc (a + b)) = omega arith in
    let last : (suc n + a ≡ n + suc a) = omega arith in
    ap (serials q n) first
    ∙ ap (λ t. serial q n ∷ t) (serials-append q (suc n) a b)
    ∙ ap (λ m. serial q n ∷ serials q (suc n) a ++ serials q m b) last

pub numbers-append :
    (k : InvoiceKind) (xs ys : List Invoice) → numbers k (xs ++ ys) ≡ numbers k xs ++ numbers k ys
unfolding numbers
numbers-append k [] ys = refl
numbers-append k (i ∷ xs) ys =
    ap (λ t. entry_of k i ++ t) (numbers-append k xs ys) ∙ sym (append_assoc (entry_of k i) _ _)

pub some_inj : {i j : Invoice} → ◌≡◌ {A = Option Invoice} (some i) (some j) → i ≡ j
some_inj h = ground arith

find_first :
    (id : ℕ) (j : Invoice) (is : List Invoice)
    → (j.id == id) ≡ true
    → find_invoice id (j ∷ is) ≡ some j
unfolding find_invoice
find_first id j is t = rw t refl

pub find_here :
    (id : ℕ) (j : Invoice) (is : List Invoice) (i : Invoice)
    → (j.id == id) ≡ true
    → find_invoice id (j ∷ is) ≡ some i
    → j ≡ i
unfolding find_invoice
find_here id j is i t h = some_inj (sym (find_first id j is t) ∙ h)

pub find_later :
    (id : ℕ) (j : Invoice) (is : List Invoice)
    → (j.id == id) ≡ false
    → find_invoice id (j ∷ is) ≡ find_invoice id is
unfolding find_invoice
find_later id j is t = rw t refl

-- A change of one row that had no number adds the number it has then.
pub numbers-update :
    (k : InvoiceKind) (id : ℕ) (f : Invoice → Invoice) (is : List Invoice) (i : Invoice)
    → find_invoice id is ≡ some i
    → entry_of k i ≡ []
    → Perm (numbers k (update_invoice id f is)) (numbers k is ++ entry_of k (f i))
unfolding numbers update_invoice find_invoice
numbers-update k id f [] i h e = ground arith
numbers-update k id f (j ∷ is) i h e = elim (Bool-cases (j.id == id)) [
  | inl t ↦ rw t (
      subst
        (λ (x : Invoice).
          Perm (entry_of k (f x) ++ numbers k is)
            ((entry_of k x ++ numbers k is) ++ entry_of k (f i)))
        (sym (find_here id j is i t h))
        (subst
          (λ (x : List Str).
            Perm (entry_of k (f i) ++ numbers k is) ((x ++ numbers k is) ++ entry_of k (f i)))
          (sym e) (perm_append_comm (entry_of k (f i)) (numbers k is))))
  | inr t ↦ rw t (
      subst (Perm (entry_of k j ++ numbers k (update_invoice id f is)))
        (sym (append_assoc (entry_of k j) (numbers k is) (entry_of k (f i))))
        (Perm.append_left (entry_of k j)
          (numbers-update k id f is i (sym (find_later id j is t) ∙ h) e)))
]

-- A change that leaves a row's entry leaves the numbers.
pub numbers_same :
    (k : InvoiceKind) (id : ℕ) (f : Invoice → Invoice) (is : List Invoice) (i : Invoice)
    → find_invoice id is ≡ some i
    → entry_of k (f i) ≡ entry_of k i
    → numbers k (update_invoice id f is) ≡ numbers k is
unfolding numbers update_invoice find_invoice
numbers_same k id f [] i h e = ground arith
numbers_same k id f (j ∷ is) i h e = elim (Bool-cases (j.id == id)) [
  | inl t ↦ rw t (
      subst (λ (x : Invoice). entry_of k (f x) ++ numbers k is ≡ entry_of k x ++ numbers k is)
        (sym (find_here id j is i t h)) (ap (λ x. x ++ numbers k is) e))
  | inr t ↦
      rw t
        (ap (λ x. entry_of k j ++ x) (numbers_same k id f is i (sym (find_later id j is t) ∙ h) e))
]
