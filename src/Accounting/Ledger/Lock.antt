-- ===== src/Accounting/Ledger/Lock.antt =====
-- `LockPeriod`: a period that is closed stays out of reach of `Post`.
use wintermute.Prelude.{
  ◌≡◌, ◌≢◌, refl, sym, ap, ◌∙◌, Bool, true, false, ◌&&◌, Option, none, some, List, [], ◌∷◌, ◌++◌,
  arith, if◌then◌else◌, nat_beq_iff, ok,
}
use wintermute.Prelude.Str.{Str, ltb_str, trim_space}
use wintermute.Prelude.Results.{seq-ok, ok_inj}
use wintermute.Accounting.Model.{JournalEntry, Period, Books, Clock}
use wintermute.Accounting.Ledger.{
  post, filled, or_today, covers, later_start, lock_covering, lock_period, save_period,
}
use wintermute.Accounting.Ledger.Post.{post_iff}

some-none : {A : Type 0} (a : A) → some a ≢ none
some-none a h = ground arith

here_closed :
    (date : Str) (p : Period) (ps : List Period)
    → p.locked ≡ true
    → covers date p ≡ true
    → lock_covering date (p ∷ ps) ≡ some (later_start p (lock_covering date ps))
unfolding lock_covering
here_closed date p ps h k = rw (h, k) refl

kept_closed :
    (c : Bool) (x : Period) (o : Option Period)
    → o ≢ none
    → (if c then some (later_start x o) else o) ≢ none
kept_closed true x o h = some-none (later_start x o)
kept_closed false x o h = h

-- A closed period at the end of the table is found, or another before it.
closed :
    (date : Str) (p : Period) (ps : List Period)
    → p.locked ≡ true
    → covers date p ≡ true
    → lock_covering date (ps ++ (p ∷ [])) ≢ none
unfolding lock_covering
closed date p [] h k q = some-none _ (sym (here_closed date p [] h k) ∙ q)
closed date p (x ∷ ps) h k q =
    kept_closed (x.locked && covers date x) x (lock_covering date (ps ++ (p ∷ [])))
      (closed date p ps h k) q

inside :
    (date : Str) (p : Period)
    → ltb_str date p.starts_on ≡ false
    → ltb_str p.ends_on date ≡ false
    → covers date p ≡ true
inside date p h k = rw (h, k) refl

saved :
    (p : Period) (b : Books)
    → p.id ≡ 0
    → (save_period p b).1.periods ≡ b.periods ++ (record p { id = b.next_period } ∷ [])
unfolding save_period
saved p b h = rw ((nat_beq_iff p.id 0).1 h) refl

-- On the books that a lock of a new period leaves, no entry is posted whose date is on the period's first
-- day, on its last, or between them, dates being compared by their bytes.
pub lock_period-closes :
    (now : Clock) (p : Period) (b : Books) (r : Period × Books) (then_ : Clock) (e : JournalEntry)
    (s : JournalEntry × Books)
    → p.id ≡ 0
    → p.locked ≡ true
    → lock_period now p b ≡ ok r
    → ltb_str (or_today then_ e.entry_date) p.starts_on ≡ false
    → ltb_str p.ends_on (or_today then_ e.entry_date) ≡ false
    → post then_ e r.1 ≢ ok s
unfolding lock_period filled
lock_period-closes now p b r then_ e s h l k from until q =
    let open_ = ((post_iff then_ e r.1 s).0 q).0.is_open in
    let p' = record p {
      locked_at = if p.locked then now.stamp else [];
      note = trim_space p.note;
    } in
    let r_is = ok_inj (seq-ok _ _ r k).1 in
    closed (or_today then_ e.entry_date) (record p' { id = b.next_period }) b.periods l
      (inside (or_today then_ e.entry_date) p from until)
      (ap (lock_covering (or_today then_ e.entry_date))
          (sym (saved p' b h) ∙ ap (λ (x : Period × Books). x.1.periods) r_is)
        ∙ open_)
