-- ===== src/Client/Harness/Safety.antt =====
-- harness.go: who has approved what was run.
use wintermute.Prelude.{
  ℕ, ◌+◌, ◌≤◌, ◌⊎◌, ◌≡◌, ◌≢◌, refl, ap, ◌∙◌, ◌&&◌, Bool, true, false, none, some, List, [], ◌∷◌,
  arith, inl, inr, Result, ok, err, Bool-cases, Option-cases, All, sym, subst, ◌++◌,
}
use wintermute.Prelude.Str.{Str, str_eq}
use wintermute.Prelude.Assoc.{Assoc, lookup, insert}
use wintermute.Client.Approval.{
  Decision, Policy, evaluate, PendingCall, Prompter, approved, confirm, is_set, is_destructive,
  decide, denied, declined_rest_reason, answer, unclear, quit,
}
use wintermute.Client.Approval.Laws.{
  is_run, evaluate-records, Records, confirm-Records, accepts, cost, allows, confirm-destructive,
  confirm-other, is_set-insert, confirm-quit,
}
use wintermute.Client.Harness.{
  Action, Actions, ResultPayload, execute, carry_out, after_prompt, handle_call, handle,
}
use wintermute.Client.Harness.Laws.{
  call_of, effect, replay, handle_call-effect, handle_call-answers, handle-replay,
}

-- No tool that `grade` calls destructive is allowed by name.
abbrev pub Withholds : (Str → Bool) → Assoc Str Bool → Type 0
Withholds grade m = (name : Str) → grade name ≡ true → is_set name m ≡ false

Withholds-insert :
    (grade : Str → Bool) (k : Str) (m : Assoc Str Bool)
    → grade k ≡ false
    → Withholds grade m
    → Withholds grade (insert k true m)
Withholds-insert grade k m g h n d =
    rw (is_set-insert n k m) (ground (arith, str_eq.test_iff k n, h n d))

-- How many destructive calls the payloads report as run.
abbrev pub destructive_runs : List ResultPayload → ℕ
destructive_runs [] = 0
destructive_runs (r ∷ rs) = cost (is_destructive r.risk && is_run r.decision) + destructive_runs rs

module _ {W : Type 0} (actions : Actions W) (policy : Policy) where
  carry_out-cost :
      (c : PendingCall) (r : Result Str Decision) (w : W)
      → Records r
      → is_run (after_prompt actions c r w).0.decision ≡ allows r
  unfolding after_prompt carry_out
  carry_out-cost c (ok d) w h = ground arith
  carry_out-cost c (err e) w h = refl

  evaluate-destructive :
      (c : PendingCall)
      → is_destructive c.risk ≡ true
      → is_set c.name policy.always_allow ≡ false
      → (evaluate policy c.name c.risk).0.allow ≡ false
  unfolding evaluate
  evaluate-destructive c h k = ground arith

  handle_call-destructive :
      (c : PendingCall) (p : Prompter) (w : W)
      → is_destructive c.risk ≡ true
      → is_set c.name policy.always_allow ≡ false
      → is_set c.name p.session_allow ≡ false
      → let (r, p', w') = handle_call actions policy c p w in
        (cost (is_run r.decision) + accepts p'.lines ≤ accepts p.lines)
        × (p'.session_allow ≡ p.session_allow)
  unfolding handle_call carry_out
  handle_call-destructive c p w d na ns = ground (
    arith,
    evaluate-destructive c d na,
    evaluate-records policy c.name c.risk,
    carry_out-cost c (confirm c p).0 w (confirm-Records c p),
    confirm-destructive c p d ns,
  )

  handle_call-other :
      (c : PendingCall) (p : Prompter) (w : W)
      → let (r, p', w') = handle_call actions policy c p w in
        (accepts p'.lines ≤ accepts p.lines)
        × ((p'.session_allow ≡ p.session_allow)
            ⊎ (p'.session_allow ≡ insert c.name true p.session_allow))
  unfolding handle_call
  handle_call-other c p w = ground (arith, confirm-other c p)

  handle_call-deny_rest :
      (c : PendingCall) (p : Prompter) (w : W)
      → p.deny_rest ≡ true
      → let (r, p', w') = handle_call actions policy c p w in (r.decision ≢ approved) × (p' ≡ p)
  unfolding handle_call after_prompt carry_out evaluate confirm
  handle_call-deny_rest c p w h = ground arith

  denied_from :
      (pending : List PendingCall) (p : Prompter) (w : W)
      → p.deny_rest ≡ true
      → let (rs, p', w') = handle actions policy pending p w in
        All (λ r. r.decision ≢ approved) rs × (p' ≡ p)
  unfolding handle
  denied_from [] p w h = (tt, refl)
  denied_from (c ∷ cs) p w h =
      let (r, p', w') = handle_call actions policy c p w in
      let here = handle_call-deny_rest c p w h in
      let rest = denied_from cs p' w' (ap (λ (q : Prompter). q.deny_rest) here.1 ∙ h) in
      ((here.0, rest.0), rest.1 ∙ here.1)

  handle_call-quit :
      (c : PendingCall) (p p' : Prompter) (w : W)
      → lookup c.name actions ≢ none
      → (evaluate policy c.name c.risk).1 ≡ false
      → confirm c p ≡ (ok (decide false denied declined_rest_reason), p')
      → ((handle_call actions policy c p w).0.decision ≡ denied)
        × ((handle_call actions policy c p w).1 ≡ p')
  unfolding handle_call after_prompt carry_out
  handle_call-quit c p p' w k e q = elim (Option-cases (lookup c.name actions)) [
    | inl n ↦ absurd (k n)
    | inr a ↦ rw (a.1, e, q, handle_call) (refl, refl)
  ]

  pub handle-deny_rest :
      (c : PendingCall) (cs : List PendingCall) (p : Prompter) (w : W) (before : List Str)
      (line : Str) (rest : List Str)
      → lookup c.name actions ≢ none
      → (evaluate policy c.name c.risk).1 ≡ false
      → p.deny_rest ≡ false
      → is_set c.name p.session_allow ≡ false
      → p.lines ≡ before ++ (line ∷ rest)
      → All (λ l. answer l ≡ unclear) before
      → answer line ≡ quit
      → let (rs, p', w') = handle actions policy (c ∷ cs) p w in
        All (λ r. r.decision ≢ approved) rs
        × (p' ≡ record p { lines = rest; deny_rest = true })
        × (w' ≡ replay actions (c ∷ cs) rs w)
  unfolding handle
  handle-deny_rest c cs p w before line rest k e d s l u q =
      let (r, p1, w1) = handle_call actions policy c p w in
      let here = handle_call-quit c p _ w k e (confirm-quit c p before line rest d s l u q) in
      let more = denied_from cs p1 w1 (ap (λ (x : Prompter). x.deny_rest) here.1) in
      (
        (λ a. ground (arith, here.0), more.0),
        more.1 ∙ here.1,
        handle-replay actions policy (c ∷ cs) p w,
      )

  -- One call, by whether its name is graded destructive.
  handle_call-consent :
      (grade : Str → Bool) (c : PendingCall) (p : Prompter) (w : W)
      → is_destructive c.risk ≡ grade c.name
      → Withholds grade policy.always_allow
      → Withholds grade p.session_allow
      → let (r, p', w') = handle_call actions policy c p w in
        (cost (is_destructive r.risk && is_run r.decision) + accepts p'.lines ≤ accepts p.lines)
        × Withholds grade p'.session_allow
  handle_call-consent grade c p w e a s =
      let same_risk = (handle_call-answers actions policy c p w).2 in
      elim (Bool-cases (grade c.name)) [
        | inl g ↦
            let (paid, kept) = handle_call-destructive c p w (e ∙ g) (a c.name g) (s c.name g) in
            (ground arith, λ n d. ap (is_set n) kept ∙ s n d)
        | inr g ↦
            let (paid, kept) = handle_call-other c p w in
            (
              ground arith,
              elim kept [
                | inl same ↦ λ n d. ap (is_set n) same ∙ s n d
                | inr added ↦ λ n d.
                    ap (is_set n) added ∙ Withholds-insert grade c.name p.session_allow g s n d
              ],
            )
      ]

  paid_by :
      (grade : Str → Bool) (pending : List PendingCall) (p : Prompter) (w : W)
      → All (λ c. is_destructive c.risk ≡ grade c.name) pending
      → Withholds grade policy.always_allow
      → Withholds grade p.session_allow
      → let (rs, p', w') = handle actions policy pending p w in
        destructive_runs rs + accepts p'.lines ≤ accepts p.lines
  unfolding handle
  paid_by grade [] p w e a s = omega arith
  paid_by grade (c ∷ cs) p w e a s =
      let (r, p', w') = handle_call actions policy c p w in
      let (paid, kept) = handle_call-consent grade c p w e.0 a s in
      omega (arith, paid_by grade cs p' w' e.1 a kept)

  -- The destructive tools being told apart by name and never allowed by name, in the configuration
  -- or earlier in the session, every destructive call that is run has used up a line of the user's
  -- input that says yes, one line for each call; and the machine changes by the calls that are reported as
  -- run and by no others.
  pub handle-consent :
      (grade : Str → Bool) (pending : List PendingCall) (p : Prompter) (w : W)
      → All (λ c. is_destructive c.risk ≡ grade c.name) pending
      → Withholds grade policy.always_allow
      → Withholds grade p.session_allow
      → let (rs, p', w') = handle actions policy pending p w in
        (destructive_runs rs + accepts p'.lines ≤ accepts p.lines)
        × (w' ≡ replay actions pending rs w)
  handle-consent grade pending p w e a s =
      (paid_by grade pending p w e a s, handle-replay actions policy pending p w)

  handle_call-never_allow :
      (c : PendingCall) (p : Prompter) (w : W)
      → is_run (handle_call actions policy c p w).0.decision && is_set c.name policy.never_allow
        ≡ false
  unfolding handle_call carry_out evaluate
  handle_call-never_allow c p w = elim (Bool-cases (is_set c.name policy.never_allow)) [
    | inl n ↦ rw n (ground arith)
    | inr n ↦ rw n (ground arith)
  ]

  withheld :
      (pending : List PendingCall) (p : Prompter) (w : W)
      → All
          (λ r. (is_run r.decision && is_set r.tool_name policy.never_allow) ≡ false)
          (handle actions policy pending p w).0
  unfolding handle
  withheld [] p w = tt
  withheld (c ∷ cs) p w =
      let (r, p', w') = handle_call actions policy c p w in
      (
        rw ((handle_call-answers actions policy c p w).1) (handle_call-never_allow c p w),
        withheld cs p' w',
      )

  execute-spares :
      (P : W → Type 0) (c : PendingCall) (w : W)
      → ((action : Action W) → lookup c.name actions ≡ some action → P (action.run c.input w).1)
      → P w
      → P (execute actions (call_of c) w).1
  unfolding execute
  execute-spares P c w keeps h = elim (Option-cases (lookup c.name actions)) [
    | inl n ↦ rw (n, execute) h
    | inr a ↦ rw (a.1, execute) (keeps a.0 a.1)
  ]

  handle_call-spares :
      (P : W → Type 0)
      → ((name input : Str) (action : Action W) (w : W)
          → lookup name actions ≡ some action
          → is_set name policy.never_allow ≡ false
          → P w
          → P (action.run input w).1)
      → (c : PendingCall) (p : Prompter) (w : W) → P w
      → P (handle_call actions policy c p w).2
  handle_call-spares P keeps c p w h =
      subst P (sym (handle_call-effect actions policy c p w)) (
        here (is_run (handle_call actions policy c p w).0.decision) (handle_call-never_allow c p w))
    where
      here :
          (ran : Bool)
          → (ran && is_set c.name policy.never_allow) ≡ false
          → P (effect actions c ran w)
      here true e = execute-spares P c w (λ a q. keeps c.name c.input a w q e h) h
      here false e = h

  spares :
      (P : W → Type 0)
      → ((name input : Str) (action : Action W) (w : W)
          → lookup name actions ≡ some action
          → is_set name policy.never_allow ≡ false
          → P w
          → P (action.run input w).1)
      → (cs : List PendingCall) (p : Prompter) (w : W) → P w
      → P (handle actions policy cs p w).2
  unfolding handle
  spares P keeps [] p w h = h
  spares P keeps (c ∷ cs) p w h =
      let (r, p', w') = handle_call actions policy c p w in
      spares P keeps cs p' w' (handle_call-spares P keeps c p w h)

  -- A call of a tool that the configuration never allows is reported as not run, whatever else allows it,
  -- and its action does not run: what every action of another tool keeps of the machine, the calls keep.
  pub handle-never_allow :
      (P : W → Type 0)
      → ((name input : Str) (action : Action W) (w : W)
          → lookup name actions ≡ some action
          → is_set name policy.never_allow ≡ false
          → P w
          → P (action.run input w).1)
      → (pending : List PendingCall) (p : Prompter) (w : W) → P w
      → let (rs, p', w') = handle actions policy pending p w in
        All (λ r. (is_run r.decision && is_set r.tool_name policy.never_allow) ≡ false) rs × P w'
  handle-never_allow P keeps pending p w h = (withheld pending p w, spares P keeps pending p w h)
