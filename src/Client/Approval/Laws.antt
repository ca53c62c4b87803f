-- ===== src/Client/Approval/Laws.antt =====
-- approval.go: what the policy and the prompter promise.
use wintermute.Prelude.{
  ℕ, suc, refl, ap, ◌∙◌, All, ◌++◌, ◌+◌, ◌≤◌, ◌≡◌, ◌⊎◌, inl, inr, Bool, true, false, List, [], ◌∷◌,
  Result, ok, err, arith, if◌then◌else◌, ◌==◌, Bool-cases,
}
use wintermute.Prelude.Str.{Str, str_eq}
use wintermute.Prelude.Assoc.{Assoc, insert, lookup-insert_self, lookup-insert_ne}
use wintermute.Tool.{Risk}
use wintermute.Client.Approval.{
  Recorded, auto, approved, denied, decide, declined_rest_reason, unclear, quit, Decision, Policy,
  evaluate, PendingCall, Prompter, answer, accept, confirm, confirm_loop, is_set, is_destructive,
}

-- The decisions under which an action is run.
abbrev pub is_run : Recorded → Bool
is_run auto = true
is_run approved = true
is_run _ = false

-- A decision allows an action exactly when the audit trail says so.
pub evaluate-records :
    (p : Policy) (name : Str) (risk : Risk)
    → (evaluate p name risk).1 ≡ true
    → (evaluate p name risk).0.allow ≡ is_run (evaluate p name risk).0.recorded
unfolding evaluate
evaluate-records p name risk h = ground arith

abbrev pub Records : Result Str Decision → Type 0
Records (ok d) = d.allow ≡ is_run d.recorded
Records (err e) = Unit

confirm_loop-Records :
    (call : PendingCall) (p : Prompter) (lines : List Str) → Records (confirm_loop call p lines).0
unfolding confirm_loop
confirm_loop-Records call p [] = ground arith
confirm_loop-Records call p (line ∷ rest) = ground (arith, confirm_loop-Records call p rest)

pub confirm-Records : (call : PendingCall) (p : Prompter) → Records (confirm call p).0
unfolding confirm
confirm-Records call p = ground (arith, confirm_loop-Records call p p.lines)

-- How many of the lines answer yes.
abbrev pub accepts : List Str → ℕ
accepts [] = 0
accepts (line ∷ lines) = elim (answer line) [ accept ↦ suc (accepts lines) | _ ↦ accepts lines ]

abbrev pub allows : Result Str Decision → Bool
allows (ok d) = d.allow
allows (err e) = false

-- 1 for a yes.
abbrev pub cost : Bool → ℕ
cost true = 1
cost false = 0

-- A destructive call is allowed only by a line that says yes, which is used up: the lines read are
-- no longer there for another call.
confirm_loop-destructive :
    (call : PendingCall) (p : Prompter) (lines : List Str)
    → is_destructive call.risk ≡ true
    → let (r, p') = confirm_loop call p lines in
      (cost (allows r) + accepts p'.lines ≤ accepts lines) × (p'.session_allow ≡ p.session_allow)
unfolding confirm_loop
confirm_loop-destructive call p [] h = ground arith
confirm_loop-destructive call p (line ∷ rest) h =
    ground (arith, confirm_loop-destructive call p rest h)

-- Any other call may also be allowed for the rest of the session.
confirm_loop-other :
    (call : PendingCall) (p : Prompter) (lines : List Str)
    → let (r, p') = confirm_loop call p lines in
      (accepts p'.lines ≤ accepts lines)
      × ((p'.session_allow ≡ p.session_allow)
          ⊎ (p'.session_allow ≡ insert call.name true p.session_allow))
unfolding confirm_loop
confirm_loop-other call p [] = ground arith
confirm_loop-other call p (line ∷ rest) = ground (arith, confirm_loop-other call p rest)

pub confirm-destructive :
    (call : PendingCall) (p : Prompter)
    → is_destructive call.risk ≡ true
    → is_set call.name p.session_allow ≡ false
    → let (r, p') = confirm call p in
      (cost (allows r) + accepts p'.lines ≤ accepts p.lines) × (p'.session_allow ≡ p.session_allow)
unfolding confirm
confirm-destructive call p h k = ground (arith, confirm_loop-destructive call p p.lines h)

pub confirm-other :
    (call : PendingCall) (p : Prompter)
    → let (r, p') = confirm call p in
      (accepts p'.lines ≤ accepts p.lines)
      × ((p'.session_allow ≡ p.session_allow)
          ⊎ (p'.session_allow ≡ insert call.name true p.session_allow))
unfolding confirm
confirm-other call p = ground (arith, confirm_loop-other call p p.lines)

-- After "quit" nothing is asked and nothing is allowed.
pub confirm-deny_rest :
    (call : PendingCall) (p : Prompter)
    → p.deny_rest ≡ true
    → (allows (confirm call p).0 ≡ false) × ((confirm call p).1 ≡ p)
unfolding confirm
confirm-deny_rest call p h = ground arith

confirm_loop-quit :
    (call : PendingCall) (p : Prompter) (before : List Str) (line : Str) (rest : List Str)
    → All (λ l. answer l ≡ unclear) before
    → answer line ≡ quit
    → confirm_loop call p (before ++ (line ∷ rest))
      ≡ (ok (decide false denied declined_rest_reason), record p { lines = rest; deny_rest = true })
unfolding confirm_loop
confirm_loop-quit call p [] line rest u q = rw (q, confirm_loop) refl
confirm_loop-quit call p (l ∷ before) line rest u q =
    rw (u.0, confirm_loop) (confirm_loop-quit call p before line rest u.1 q)

neither :
    {A : Type 0} (b c : Bool) (x y z : A)
    → b ≡ false
    → c ≡ false
    → (if b then x else if c then y else z) ≡ z
neither b c x y z h k = rw (h, k) refl

-- A call that is asked about is denied by "quit", which may come after lines that are no answer, and
-- what the user has typed behind it is not read.
pub confirm-quit :
    (call : PendingCall) (p : Prompter) (before : List Str) (line : Str) (rest : List Str)
    → p.deny_rest ≡ false
    → is_set call.name p.session_allow ≡ false
    → p.lines ≡ before ++ (line ∷ rest)
    → All (λ l. answer l ≡ unclear) before
    → answer line ≡ quit
    → confirm call p
      ≡ (ok (decide false denied declined_rest_reason), record p { lines = rest; deny_rest = true })
unfolding confirm
confirm-quit call p before line rest d s l u q =
    neither p.deny_rest (is_set call.name p.session_allow) _ _ _ d s
    ∙ ap (confirm_loop call p) l
    ∙ confirm_loop-quit call p before line rest u q

pub is_set-insert :
    (j k : Str) (m : Assoc Str Bool)
    → is_set j (insert k true m) ≡ (if k == j then true else is_set j m)
is_set-insert j k m = elim (Bool-cases (k == j)) [
  | inl same ↦ ground (arith, str_eq.test_iff k j, lookup-insert_self k true m)
  | inr other ↦ ground (arith, str_eq.test_iff k j, lookup-insert_ne j k true m)
]
