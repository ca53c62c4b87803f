-- ===== src/Accounting/Reports/Exact.antt =====
-- reports_repo.go: on a sound journal whose debits and whose credits each stay within int64, no SUM of
-- Balances overflows, and the totals of all accounts are even.
use wintermute.Prelude.{
  ℕ, ◌+◌, ◌%◌, ◌<◌, ◌≡◌, refl, ap, ◌∙◌, inl, inr, Bool-cases, if_intro, true, List, [], ◌∷◌, All,
  All-append, All-imp, map, arith, ◌==◌, nat_eq, if◌then◌else◌, ok,
}
use wintermute.Prelude.Int.{ℤ, pos, pos_part, ◌+ℤ◌, int_beq_iff}
use wintermute.Prelude.Int64.{
  sub64, two63, two64, residue, residue-lt, residue-add64, zero_residue, add64,
}
use wintermute.Prelude.Str.{Str}
use wintermute.Accounting.Money.{Money}
use wintermute.Accounting.Model.{
  debit_normal, Account, JournalEntry, JournalLine, Books, debits, credits, balanced,
}
use wintermute.Accounting.Ledger.Post.{IsOneSided}
use wintermute.Accounting.Ledger.Journal.{IsKnown, IsSound, IsSoundBooks}
use wintermute.Accounting.Reports.{
  Balance, is_int64, sql_sum, in_window, window_lines, side_of, balance_of, balances_of,
  sort_by_code, balances,
}
use wintermute.Accounting.Reports.Volume.{
  HasDistinctIds, sum_side, sum_side-append, volume, share, shares, window-le, share-le,
  shares_whole, shares-sort,
}

IsPos : ℤ → Type 0
IsPos z = z ≡ pos (pos_part z)

sides-IsPos : (l : JournalLine) → IsOneSided l → IsPos l.debit × IsPos l.credit
unfolding IsPos
sides-IsPos l h = ground arith

plus_exact : (a b : ℕ) → pos a +ℤ pos b ≡ pos (a + b)
unfolding ◌+ℤ◌
plus_exact a b = ground arith

sql_sum-cons :
    (acc : ℕ) (z : Money) (vs : List Money)
    → IsPos z
    → acc + pos_part z < two63
    → sql_sum (pos acc) (z ∷ vs) ≡ sql_sum (pos (acc + pos_part z)) vs
unfolding sql_sum IsPos
sql_sum-cons acc z vs h k =
    let exact : (pos acc +ℤ z ≡ pos (acc + pos_part z)) =
      ap (λ y. pos acc +ℤ y) h ∙ plus_exact acc (pos_part z) in
    let fits : (is_int64 (pos (acc + pos_part z)) ≡ true) = ground arith in rw (exact, fits) refl

sql_sum_nil : (acc : ℕ) → sql_sum (pos acc) [] ≡ ok (pos acc)
unfolding sql_sum
sql_sum_nil acc = refl

-- A sum that stays within int64 is the exact one.
sum_ok :
    (side : JournalLine → Money) (id acc : ℕ) (ls : List JournalLine)
    → All (λ l. IsPos (side l)) ls
    → acc + share side id ls < two63
    → sql_sum (pos acc) (side_of side id ls) ≡ ok (pos (acc + share side id ls))
unfolding side_of share
sum_ok side id acc [] h k = sql_sum_nil acc ∙ ap (λ n. ok (pos n)) (omega arith)
sum_ok side id acc (l ∷ ls) h k = elim (Bool-cases (l.account_id == id)) [
  | inl e ↦
      let room : (acc + pos_part (side l) + share side id ls < two63) = ground arith in
      rw e (
        sql_sum-cons acc (side l) (side_of side id ls) h.0 (omega (arith, room))
        ∙ sum_ok side id (acc + pos_part (side l)) ls h.1 room
        ∙ ap (λ n. ok (pos n)) (omega arith))
  | inr e ↦
      let room : (acc + share side id ls < two63) = ground arith in
      rw e (sum_ok side id acc ls h.1 room)
]

residue-IsPos : (z : ℤ) → IsPos z → residue z ≡ pos_part z % two64
unfolding residue IsPos
residue-IsPos z h = ground arith

-- The sums of an entry that wrap around are the exact ones modulo 2 ^ 64.
debits-sum :
    (s : Money) (ls : List JournalLine)
    → All (λ l. IsPos l.debit) ls
    → residue (debits s ls) ≡ (residue s + sum_side (λ l. l.debit) ls) % two64
unfolding debits sum_side
debits-sum s [] h = omega (arith, residue-lt s)
debits-sum s (l ∷ ls) h =
    omega (
      arith,
      debits-sum (add64 s l.debit) ls h.1,
      residue-add64 s l.debit,
      residue-IsPos l.debit h.0,
    )

credits-sum :
    (s : Money) (ls : List JournalLine)
    → All (λ l. IsPos l.credit) ls
    → residue (credits s ls) ≡ (residue s + sum_side (λ l. l.credit) ls) % two64
unfolding credits sum_side
credits-sum s [] h = omega (arith, residue-lt s)
credits-sum s (l ∷ ls) h = omega (
  arith,
  credits-sum (add64 s l.credit) ls h.1,
  residue-add64 s l.credit,
  residue-IsPos l.credit h.0,
)

same_residue : (a b : ℤ) → a ≡ b → residue a ≡ residue b
same_residue a b h = ap residue h

entry_even :
    (e : JournalEntry)
    → All IsOneSided e.lines
    → balanced e ≡ true
    → sum_side (λ l. l.debit) e.lines % two64 ≡ sum_side (λ l. l.credit) e.lines % two64
unfolding balanced
entry_even e h b = omega (
  arith,
  debits-sum (pos 0) e.lines (All-imp _ _ (λ l k. (sides-IsPos l k).0) e.lines h),
  credits-sum (pos 0) e.lines (All-imp _ _ (λ l k. (sides-IsPos l k).1) e.lines h),
  same_residue (debits (pos 0) e.lines) (credits (pos 0) e.lines) ((int_beq_iff _ _).0 b),
  zero_residue,
)

window_even :
    (accounts : List Account) (next : ℕ) (from to : Str) (es : List JournalEntry)
    → All (IsSound accounts next) es
    → sum_side (λ l. l.debit) (window_lines from to es) % two64
      ≡ sum_side (λ l. l.credit) (window_lines from to es) % two64
unfolding window_lines sum_side
window_even accounts next from to [] h = refl
window_even accounts next from to (e ∷ es) h =
    let rest = window_even accounts next from to es h.1 in
    let one = h.0 in
    if_intro
      (λ (ls : List JournalLine).
        sum_side (λ l. l.debit) ls % two64 ≡ sum_side (λ l. l.credit) ls % two64)
      (in_window from to e.entry_date)
      (omega (
        arith,
        rest,
        entry_even e one.sided one.balances,
        sum_side-append (λ l. l.debit) e.lines (window_lines from to es),
        sum_side-append (λ l. l.credit) e.lines (window_lines from to es),
      ))
      rest

All-window :
    (P : JournalLine → Type 0) (from to : Str) (es : List JournalEntry)
    → All (λ e. All P e.lines) es
    → All P (window_lines from to es)
unfolding window_lines
All-window P from to [] h = tt
All-window P from to (e ∷ es) h =
    let rest = All-window P from to es h.1 in
    if_intro (All P) (in_window from to e.entry_date) (All-append P e.lines _ h.0 rest) rest

sum_of :
    (side : JournalLine → Money) (id : ℕ) (ls : List JournalLine)
    → All (λ l. IsPos (side l)) ls
    → share side id ls < two63
    → sql_sum (pos 0) (side_of side id ls) ≡ ok (pos (share side id ls))
sum_of side id ls h k =
    sum_ok side id 0 ls h (omega (arith, k)) ∙ ap (λ n. ok (pos n)) (omega arith)

-- The totals of an account over the lines, exactly.
exact_balance : List JournalLine → Account → Balance
exact_balance ls a =
    let d = pos (share (λ l. l.debit) a.id ls) in
    let c = pos (share (λ l. l.credit) a.id ls) in
    record {
      account = a;
      debit_total = d;
      credit_total = c;
      balance = if debit_normal a.type then sub64 d c else sub64 c d;
    }

module _ (ls : List JournalLine) (sided : All IsOneSided ls)
    (debits_fit : sum_side (λ l. l.debit) ls < two63)
    (credits_fit : sum_side (λ l. l.credit) ls < two63) where
  balance_of_ok : (a : Account) → balance_of ls a ≡ ok (exact_balance ls a)
  unfolding balance_of exact_balance
  balance_of_ok a =
      rw
        (
          sum_of (λ l. l.debit) a.id ls (All-imp _ _ (λ l k. (sides-IsPos l k).0) ls sided)
              (omega (arith, share-le (λ l. l.debit) a.id ls)),
          sum_of (λ l. l.credit) a.id ls (All-imp _ _ (λ l k. (sides-IsPos l k).1) ls sided)
              (omega (arith, share-le (λ l. l.credit) a.id ls)),
        )
        refl

  balances_of_ok : (chart : List Account) → balances_of ls chart ≡ ok (map (exact_balance ls) chart)
  unfolding balances_of
  balances_of_ok [] = refl
  balances_of_ok (a ∷ rest) = rw (balance_of_ok a, balances_of_ok rest) refl

unfoldable pub debit_residues : List Balance → ℕ
debit_residues [] = 0
debit_residues (b ∷ bs) = residue b.debit_total + debit_residues bs

unfoldable pub credit_residues : List Balance → ℕ
credit_residues [] = 0
credit_residues (b ∷ bs) = residue b.credit_total + credit_residues bs

debit_residues-exact :
    (ls : List JournalLine) (chart : List Account)
    → debit_residues (map (exact_balance ls) chart) % two64 ≡ shares (λ l. l.debit) ls chart % two64
unfolding debit_residues shares exact_balance residue
debit_residues-exact ls [] = refl
debit_residues-exact ls (a ∷ rest) = omega (arith, debit_residues-exact ls rest)

credit_residues-exact :
    (ls : List JournalLine) (chart : List Account)
    → credit_residues (map (exact_balance ls) chart) % two64
      ≡ shares (λ l. l.credit) ls chart % two64
unfolding credit_residues shares exact_balance residue
credit_residues-exact ls [] = refl
credit_residues-exact ls (a ∷ rest) = omega (arith, credit_residues-exact ls rest)

-- The two sides of the accounts' totals are one, modulo 2 ^ 64.
abbrev pub IsEven : List Balance → Type 0
IsEven bs = debit_residues bs % two64 ≡ credit_residues bs % two64

-- The debits and the credits of the journal each stay within int64.
pub record Fits (b : Books) : Type 0 where
  pub debits_fit : volume (λ l. l.debit) b.entries < two63
  pub credits_fit : volume (λ l. l.credit) b.entries < two63

pub balances_ok :
    (from to : Str) (b : Books)
    → IsSoundBooks b
    → HasDistinctIds b.accounts
    → Fits b
    → (bs : List Balance) × (balances from to b ≡ ok bs) × IsEven bs
unfolding balances
balances_ok from to b h d f =
    let ls = window_lines from to b.entries in
    let sided =
      All-window IsOneSided from to b.entries (All-imp _ _ (λ e k. k.sided) b.entries h) in
    let known =
      All-window (IsKnown b.accounts) from to b.entries
        (All-imp _ _ (λ e k. k.known) b.entries h) in
    let chart = sort_by_code b.accounts in
    (
      map (exact_balance ls) chart,
      balances_of_ok ls sided
          (omega (arith, f.debits_fit, window-le (λ l. l.debit) from to b.entries))
          (omega (arith, f.credits_fit, window-le (λ l. l.credit) from to b.entries)) chart,
      omega (
        arith,
        debit_residues-exact ls chart,
        credit_residues-exact ls chart,
        shares-sort (λ l. l.debit) ls b.accounts,
        shares-sort (λ l. l.credit) ls b.accounts,
        shares_whole (λ l. l.debit) b.accounts ls d known,
        shares_whole (λ l. l.credit) b.accounts ls d known,
        window_even b.accounts b.next_entry from to b.entries h,
      ),
    )
