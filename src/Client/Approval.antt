-- ===== src/Client/Approval.antt =====
-- internal/client/approval.go: the policy, and the prompter that asks about what it leaves open.
-- What the prompter prints is left out. Its input is the complete lines that can still be read,
-- then the end of the file or a read error; text without a newline before the end is no answer.
pub mod Laws
use wintermute.Prelude.{
  Bool, true, false, ◌||◌, Option, none, some, List, [], ◌∷◌, ◌++◌, Result, ok, err, ◌==◌,
  if◌then◌else◌,
}
use wintermute.Prelude.Str.{Str, codes, str_eq, trim_space, to_lower, quote}
use wintermute.Prelude.Assoc.{Assoc, lookup, insert}
use wintermute.Tool.{Risk, read, write, destructive, other_risk}

-- The decisions that the audit trail records; `unset` is the empty string.
pub data Recorded : Type 0 where
  unset auto approved denied blocked : Recorded

pub record Decision : Type 0 where
  pub allow : Bool
  pub recorded : Recorded
  pub reason : Str

abbrev pub decide : Bool → Recorded → Str → Decision
decide a r s = record { allow = a; recorded = r; reason = s }

-- `map[string]bool` read at a key: false where it is absent.
abbrev pub is_set : Str → Assoc Str Bool → Bool
is_set k m = elim (lookup k m) [ none ↦ false | some b ↦ b ]

-- The loop of `toSet`.
set_from : Assoc Str Bool → List Str → Assoc Str Bool
set_from out [] = out
set_from out (i ∷ items) = set_from (insert i true out) items

unfoldable pub to_set : List Str → Assoc Str Bool
unfolding set_from
to_set = set_from []

pub record Policy : Type 0 where
  pub auto_approve_reads : Bool
  pub always_allow : Assoc Str Bool
  pub never_allow : Assoc Str Bool
  pub assume_yes : Bool

-- The part of `Config` that the policy is built from; the pointer may be nil.
pub record Config : Type 0 where
  pub auto_approve_reads : Option Bool
  pub always_allow : List Str
  pub never_allow : List Str

unfoldable pub reads_auto_approved : Config → Bool
reads_auto_approved c = elim c.auto_approve_reads [ none ↦ true | some b ↦ b ]

unfoldable pub new_policy : Config → Bool → Policy
unfolding reads_auto_approved to_set
new_policy cfg assume_yes = record {
  auto_approve_reads = reads_auto_approved cfg;
  always_allow = to_set cfg.always_allow;
  never_allow = to_set cfg.never_allow;
  assume_yes = assume_yes;
}

abbrev pub disabled_reason : Str → Str
disabled_reason name =
    quote name ++ codes " is disabled on this machine by the client configuration."

-- The `switch risk` of `Evaluate`.
by_risk : Policy → Risk → Decision × Bool
by_risk p read =
    if p.auto_approve_reads then (decide true auto [], true) else (decide false unset [], false)
by_risk p write =
    if p.assume_yes then (decide true auto [], true) else (decide false unset [], false)
by_risk p destructive = (decide false unset [], false)
by_risk p (other_risk s) = (decide false unset [], false)

-- The second part is `settled`.
unfoldable pub evaluate : Policy → Str → Risk → Decision × Bool
unfolding by_risk
evaluate p name risk =
    if is_set name p.never_allow
    then (decide false blocked (disabled_reason name), true)
    else if is_set name p.always_allow
    then (decide true auto [], true)
    else by_risk p risk

pub record PendingCall : Type 0 where
  pub id : Str
  pub name : Str
  pub input : Str
  pub risk : Risk
  pub description : Str

pub data Ending : Type 0 where
  eof : Ending
  broken : Str → Ending

pub record Prompter : Type 0 where
  pub lines : List Str
  pub ending : Ending
  pub session_allow : Assoc Str Bool
  pub deny_rest : Bool

unfoldable pub new_prompter : List Str → Ending → Prompter
new_prompter lines ending = record {
  lines = lines;
  ending = ending;
  session_allow = [];
  deny_rest = false;
}

pub data Answer : Type 0 where
  accept decline always quit unclear : Answer

-- The cases of the `switch` on an answer.
unfoldable pub answer : Str → Answer
answer line =
    let s = to_lower (trim_space line) in
    if s == codes "y" || s == codes "yes"
    then accept
    else if s == codes "n" || s == codes "no" || s == []
    then decline
    else if s == codes "a" || s == codes "always"
    then always
    else if s == codes "q" || s == codes "quit"
    then quit
    else unclear

abbrev pub declined_reason : Str
declined_reason = codes "The user declined this action."

abbrev pub declined_rest_reason : Str
declined_rest_reason = codes "The user declined this and any further actions in this turn."

abbrev pub is_destructive : Risk → Bool
is_destructive destructive = true
is_destructive _ = false

-- What a failed read returns: the end of the input is a refusal, never consent.
at_end : Ending → Result Str Decision
at_end eof = ok (decide false denied (codes "No approval was given (input closed)."))
at_end (broken e) = err (codes "read approval: " ++ e)

-- The `for` loop of `Confirm`, over the lines that are left.
confirm_loop : PendingCall → Prompter → List Str → Result Str Decision × Prompter
unfolding at_end
confirm_loop call p [] = (at_end p.ending, record p { lines = [] })
confirm_loop call p (line ∷ rest) =
    let again = confirm_loop call p rest in
    elim (answer line) [
      | accept ↦ (ok (decide true approved []), record p { lines = rest })
      | decline ↦ (ok (decide false denied declined_reason), record p { lines = rest })
      | always ↦ if is_destructive call.risk then again else (
        ok (decide true approved []),
        record p { lines = rest; session_allow = insert call.name true p.session_allow },
      )
      | quit ↦ (
        ok (decide false denied declined_rest_reason),
        record p { lines = rest; deny_rest = true },
      )
      | unclear ↦ again
    ]

unfoldable pub confirm : PendingCall → Prompter → Result Str Decision × Prompter
unfolding confirm_loop
confirm call p =
    if p.deny_rest
    then (ok (decide false denied declined_rest_reason), p)
    else if is_set call.name p.session_allow
    then (ok (decide true approved []), p)
    else confirm_loop call p p.lines

unfoldable pub reset : Prompter → Prompter
reset p = record p { deny_rest = false }
