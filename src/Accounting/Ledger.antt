-- ===== src/Accounting/Ledger.antt =====
-- internal/accounting/service.go Post, PostFrom, Reverse, LockPeriod, and the statements of
-- internal/accounting/repository.go that they run. A write is one transaction: an error leaves the
-- state it was called in, so only success carries a new one. A failing disk is left out.
pub mod Post
pub mod Journal
pub mod Lock
pub mod Reverse
use wintermute.Prelude.{
  ℕ, suc, ◌+◌, ◌/◌, ◌%◌, zero, Bool, true, false, not, ◌&&◌, ◌||◌, Option, none, some, List, [],
  ◌∷◌, ◌++◌, map, length, ltb, leb, nat_beq, ◌==◌, nat_eq, if◌then◌else◌, Result, ok, err,
  refuse_if, ◌>>=◌, ◌>>◌,
}
use wintermute.Prelude.Int.{ℤ, pos, ltb_ℤ, leb_ℤ, int_beq}
use wintermute.Prelude.Int64.{add64}
use wintermute.Prelude.Decimal.{print_nat}
use wintermute.Prelude.Str.{Str, codes, ltb_str, trim_space}
use wintermute.Accounting.Money.{Money, is_negative}
use wintermute.Accounting.Model.{
  Account, JournalSource, unset_source, manual, source_valid, JournalLine, JournalEntry, Period,
  Posting, Books, Clock, Fault, not_found, source_unknown, too_few_lines, amount_negative,
  sides_wrong, account_missing, account_archived, unbalanced, no_value, period_locked,
  period_backwards, constraint_failed, get_account, get_entry,
}
use wintermute.Accounting.Date.{is_empty, valid_date}

-- `starts_on <= ? AND ends_on >= ?`, by bytes
abbrev pub covers : Str → Period → Bool
covers date p = not (ltb_str date p.starts_on) && not (ltb_str p.ends_on date)

abbrev pub later_start : Period → Option Period → Period
later_start p none = p
later_start p (some q) = if ltb_str p.starts_on q.starts_on then q else p

-- `LockCovering`
unfoldable pub lock_covering : Str → List Period → Option Period
lock_covering date [] = none
lock_covering date (p ∷ ps) =
    let rest = lock_covering date ps in
    if p.locked && covers date p then some (later_start p rest) else rest

abbrev pub locked_by : Str → Option Period → Result Fault (Unit {0})
locked_by date none = ok tt
locked_by date (some p) = err (period_locked date p)

-- `checkPeriodOpen`
unfoldable pub check_period_open : Str → Books → Result Fault (Unit {0})
check_period_open date b = locked_by date (lock_covering date b.periods)

-- The account of a line: an id that is not there, or an archived account, is refused.
abbrev pub usable : ℕ → ℕ → Option Account → Result Fault (Unit {0})
usable n id none = err (account_missing n id)
usable n id (some a) = refuse_if a.archived (account_archived n a.code)

abbrev pub same : Bool → Bool → Bool
same true c = c
same false c = not c

-- The loop of `Post` over the lines, `n` the number of the first.
unfoldable pub check_lines :
    List Account → ℕ → Money → Money → List JournalLine → Result Fault (Money × Money)
check_lines accounts n debit credit [] = ok (debit, credit)
check_lines accounts n debit credit (l ∷ ls) =
    refuse_if (is_negative l.debit || is_negative l.credit) (amount_negative n)
    >> refuse_if (same (int_beq l.debit (pos 0)) (int_beq l.credit (pos 0))) (sides_wrong n)
    >> usable n l.account_id (get_account l.account_id accounts)
    >> check_lines accounts (suc n) (add64 debit l.debit) (add64 credit l.credit) ls

-- What a line's columns demand: REFERENCES acct_accounts, and the three CHECKs.
unfoldable pub line_admitted : List Account → JournalLine → Bool
line_admitted accounts l =
    is_there (get_account l.account_id accounts)
    && not (is_negative l.debit)
    && not (is_negative l.credit)
    && not (same (int_beq l.debit (pos 0)) (int_beq l.credit (pos 0)))
  where
    is_there : Option Account → Bool
    is_there none = false
    is_there (some a) = true

-- The lines as inserted, numbered from `i`; the first that its columns refuse stops the transaction.
unfoldable pub insert_lines : List Account → ℕ → List JournalLine → Result Fault (List JournalLine)
insert_lines accounts i [] = ok []
insert_lines accounts i (l ∷ ls) =
    let rest = insert_lines accounts (i + 1) ls in
    if line_admitted accounts l
    then rest >>= (λ done. ok (record l { ordinal = i } ∷ done))
    else err (constraint_failed (i + 1))

-- `PostEntry`, by `insertEntryTx`
unfoldable pub post_entry : JournalEntry → Books → Result Fault (JournalEntry × Books)
post_entry e b = insert_lines b.accounts 0 e.lines >>= λ lines.
    let e' = record e { id = b.next_entry; lines = lines } in
    ok (e', record b { entries = b.entries ++ (e' ∷ []); next_entry = suc b.next_entry })

abbrev pub or_manual : JournalSource → JournalSource
or_manual unset_source = manual
or_manual s = s

abbrev pub or_today : Clock → Str → Str
or_today now [] = now.today
or_today now (c ∷ cs) = c ∷ cs

-- The defaults that `Post` fills in first.
unfoldable pub filled : Clock → JournalEntry → JournalEntry
filled now e = record e {
  entry_date = or_today now e.entry_date;
  source_type = or_manual e.source_type;
}

-- `Post`, once its defaults are filled in.
unfoldable pub post_filled : Clock → JournalEntry → Books → Result Fault (JournalEntry × Books)
post_filled now e b =
    valid_date e.entry_date
    >> refuse_if (not (source_valid e.source_type)) (source_unknown e.source_type)
    >> check_period_open e.entry_date b
    >> refuse_if (ltb (length e.lines) 2) (too_few_lines (length e.lines))
    >> check_lines b.accounts 1 (pos 0) (pos 0) e.lines
    >>= λ sums.
        refuse_if (not (int_beq sums.0 sums.1)) (unbalanced sums.0 sums.1)
        >> refuse_if (int_beq sums.0 (pos 0)) no_value
        >> post_entry (record e { memo = trim_space e.memo; created_at = now.stamp }) b

-- `Post`
unfoldable pub post : Clock → JournalEntry → Books → Result Fault (JournalEntry × Books)
post now e b = post_filled now (filled now e) b

-- The lines of `PostFrom`: a posting of nothing is dropped.
unfoldable pub posting_lines : List Posting → List JournalLine
posting_lines [] = []
posting_lines (p ∷ ps) =
    let rest = posting_lines ps in
    if int_beq p.debit (pos 0) && int_beq p.credit (pos 0)
    then rest
    else record {
      account_id = p.account_id;
      debit = p.debit;
      credit = p.credit;
      description = p.description;
      ordinal = 0;
    }
      ∷ rest

-- `PostFrom`
unfoldable pub post_from :
    Clock
    → Str
    → Str
    → JournalSource
    → ℕ
    → List Posting
    → Books
    → Result Fault (JournalEntry × Books)
post_from now date memo src src_id postings b =
    post now
      (record {
        id = 0;
        entry_date = date;
        memo = memo;
        source_type = src;
        source_id = src_id;
        reverses_id = 0;
        created_at = [];
        lines = posting_lines postings;
      })
      b

-- The sides of a line swapped.
unfoldable pub mirror : JournalLine → JournalLine
mirror l = record {
  account_id = l.account_id;
  debit = l.credit;
  credit = l.debit;
  description = l.description;
  ordinal = 0;
}

unfoldable pub default_memo : ℕ → Str → Str
unfolding print_nat
default_memo id [] = codes "Reversal of entry " ++ print_nat id
default_memo id (c ∷ cs) = c ∷ cs

-- The entry that `Reverse` posts.
unfoldable pub reversal : Clock → Str → Str → JournalEntry → JournalEntry
unfolding default_memo
reversal now date memo orig = record {
  id = 0;
  entry_date = or_today now date;
  memo = default_memo orig.id memo;
  source_type = orig.source_type;
  source_id = orig.source_id;
  reverses_id = orig.id;
  created_at = [];
  lines = map mirror orig.lines;
}

-- `Reverse`
unfoldable pub reverse : Clock → ℕ → Str → Str → Books → Result Fault (JournalEntry × Books)
reverse now id date memo b = go (get_entry id b.entries)
  where
    go : Option JournalEntry → Result Fault (JournalEntry × Books)
    go none = err not_found
    go (some orig) = post now (reversal now date memo orig) b

-- The row with the id of `p` becomes `p`.
update_period : Period → List Period → List Period
update_period p [] = []
update_period p (q ∷ qs) = let rest = update_period p qs in (if q.id == p.id then p else q) ∷ rest

-- `SavePeriod`
unfoldable pub save_period : Period → Books → Period × Books
unfolding update_period
save_period p b =
    if nat_beq p.id 0
    then (
      record p { id = b.next_period },
      record b {
        periods = b.periods ++ (record p { id = b.next_period } ∷ []);
        next_period = suc b.next_period;
      },
    )
    else (p, record b { periods = update_period p b.periods })

-- `LockPeriod`
unfoldable pub lock_period : Clock → Period → Books → Result Fault (Period × Books)
lock_period now p b =
    valid_date p.starts_on
    >> valid_date p.ends_on
    >> refuse_if (ltb_str p.ends_on p.starts_on) (period_backwards p.ends_on p.starts_on)
    >> ok (
        save_period
          (record p { locked_at = if p.locked then now.stamp else []; note = trim_space p.note }) b)
