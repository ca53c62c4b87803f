-- ===== src/Accounting/Reports/Trial.antt =====
-- reports.go: the trial balance of a sound journal balances.
use mathlib.Core.List.{foldl}
use wintermute.Prelude.{
  ℕ, ◌+◌, ◌-◌, ◌%◌, ◌<◌, ◌≡◌, refl, ap, ◌∙◌, inl, inr, Bool-cases, if_intro, true, List, [], ◌∷◌,
  arith, ok,
}
use wintermute.Prelude.Int.{ℤ, pos, int_beq, int_beq_iff, ◌+ℤ◌}
use wintermute.Prelude.Int64.{
  two64, add64, sub64, neg64, residue, residue-lt, residue-add64, residue-sub64, residue-neg64,
  zero_residue, IsInt64, wrap-IsInt64, same_int64,
}
use wintermute.Prelude.Str.{Str}
use wintermute.Accounting.Money.{Money, is_negative}
use wintermute.Accounting.Model.{Account, Books}
use wintermute.Accounting.Ledger.Journal.{IsSoundBooks}
use wintermute.Accounting.Reports.{
  Balance, TrialBalance, trial_row, trial_step, empty_trial, closed_trial, trial_balance, bound_or,
  date_floor, date_ceiling,
}
use wintermute.Accounting.Reports.Volume.{HasDistinctIds}
use wintermute.Accounting.Reports.Exact.{Fits, IsEven, debit_residues, credit_residues, balances_ok}

-- The totals so far differ by what the accounts seen so far differ by, debits `d` and credits `c`.
abbrev Tracks : ℕ → ℕ → TrialBalance → Type 0
Tracks d c t = (residue t.total_debit + c) % two64 ≡ (residue t.total_credit + d) % two64

zero_net : (net : ℤ) → int_beq net (pos 0) ≡ true → residue net ≡ 0
zero_net net h = ap residue ((int_beq_iff net (pos 0)).0 h) ∙ zero_residue

row_tracks :
    (net td tc : Money) (d c x y : ℕ) (a : Account)
    → (residue td + c) % two64 ≡ (residue tc + d) % two64
    → residue net ≡ (x + (two64 - y)) % two64
    → y < two64
    → (residue (add64 td (trial_row a net).debit) + (c + y)) % two64
      ≡ (residue (add64 tc (trial_row a net).credit) + (d + x)) % two64
unfolding trial_row
row_tracks net td tc d c x y a h k l = elim (Bool-cases (is_negative net)) [
  | inl e ↦ rw e (
      omega (
        arith,
        h,
        k,
        l,
        zero_residue,
        residue-add64 td (pos 0),
        residue-add64 tc (neg64 net),
        residue-neg64 net,
        residue-lt net,
      ))
  | inr e ↦
      rw e (omega (arith, h, k, l, zero_residue, residue-add64 td net, residue-add64 tc (pos 0)))
]

trial_step-Tracks :
    (d c : ℕ) (t : TrialBalance) (b : Balance)
    → Tracks d c t
    → Tracks (d + residue b.debit_total) (c + residue b.credit_total) (trial_step t b)
unfolding trial_step
trial_step-Tracks d c t b h =
    let net = sub64 b.debit_total b.credit_total in
    let exact = residue-sub64 b.debit_total b.credit_total in
    elim (Bool-cases (int_beq net (pos 0))) [
      | inl e ↦ rw e (
          omega
            (arith, h, exact, zero_net net e, residue-lt b.debit_total, residue-lt b.credit_total))
      | inr e ↦ rw e (
          row_tracks net t.total_debit t.total_credit d c (residue b.debit_total)
            (residue b.credit_total) b.account h exact (residue-lt b.credit_total))
    ]

fold-Tracks :
    (d c : ℕ) (t : TrialBalance) (bs : List Balance)
    → Tracks d c t
    → Tracks (d + debit_residues bs) (c + credit_residues bs) (foldl trial_step t bs)
unfolding debit_residues credit_residues
fold-Tracks d c t [] h = omega (arith, h)
fold-Tracks d c t (b ∷ bs) h = omega (
  arith,
  fold-Tracks (d + residue b.debit_total) (c + residue b.credit_total) (trial_step t b) bs
      (trial_step-Tracks d c t b h),
)

abbrev AreInt64 : TrialBalance → Type 0
AreInt64 t = IsInt64 t.total_debit × IsInt64 t.total_credit

trial_step-AreInt64 : (t : TrialBalance) (b : Balance) → AreInt64 t → AreInt64 (trial_step t b)
unfolding trial_step add64
trial_step-AreInt64 t b h =
    if_intro AreInt64 (int_beq (sub64 b.debit_total b.credit_total) (pos 0)) h
      (wrap-IsInt64 (t.total_debit +ℤ _), wrap-IsInt64 (t.total_credit +ℤ _))

fold-AreInt64 :
    (t : TrialBalance) (bs : List Balance) → AreInt64 t → AreInt64 (foldl trial_step t bs)
fold-AreInt64 t [] h = h
fold-AreInt64 t (b ∷ bs) h = fold-AreInt64 (trial_step t b) bs (trial_step-AreInt64 t b h)

even_trial :
    (from to : Str) (bs : List Balance)
    → IsEven bs
    → (closed_trial (foldl trial_step (empty_trial from to) bs)).balanced ≡ true
even_trial from to bs h =
    let t = foldl trial_step (empty_trial from to) bs in
    let sides =
      fold-AreInt64 (empty_trial from to) bs
        ((omega arith, omega arith), (omega arith, omega arith)) in
    (int_beq_iff t.total_debit t.total_credit).1 (
      same_int64 t.total_debit t.total_credit sides.0 sides.1 (
        omega (
          arith,
          h,
          fold-Tracks 0 0 (empty_trial from to) bs refl,
          residue-lt t.total_debit,
          residue-lt t.total_credit,
        )))

-- On a sound journal whose debits and whose credits each add up to an int64, over a chart with no id twice,
-- TrialBalance returns a trial balance for any window of dates, and its two sides are equal.
pub trial_balance-balanced :
    (from to : Str) (b : Books)
    → IsSoundBooks b
    → HasDistinctIds b.accounts
    → Fits b
    → (t : TrialBalance) × (trial_balance from to b ≡ ok t) × (t.balanced ≡ true)
unfolding trial_balance
trial_balance-balanced from to b h d f =
    let from' = bound_or date_floor from in
    let to' = bound_or date_ceiling to in
    let found = balances_ok from' to' b h d f in
    (
      closed_trial (foldl trial_step (empty_trial from' to') found.0),
      rw (found.1) refl,
      even_trial from' to' found.0 found.2,
    )
