-- ===== src/Client/Harness/Laws.antt =====
-- harness.go: one answer for each call, and what was run is what the answers say.
use wintermute.Prelude.{
  ◌≡◌, refl, ap, ◌∙◌, Bool, List, [], ◌∷◌, map, arith, Result, ok, err, if◌then◌else◌,
}
use wintermute.Prelude.Str.{Str}
use wintermute.Tool.{Call}
use wintermute.Client.Approval.{Decision, Policy, evaluate, PendingCall, Prompter, confirm}
use wintermute.Client.Approval.Laws.{is_run, evaluate-records, Records, confirm-Records}
use wintermute.Client.Harness.{
  Actions, ResultPayload, execute, carry_out, after_prompt, handle_call, handle,
}

abbrev pub call_of : PendingCall → Call
call_of c = record { id = c.id; name = c.name; input = c.input }

abbrev pub asked : PendingCall → Str × Str
asked c = (c.id, c.name)

abbrev pub answered : ResultPayload → Str × Str
answered r = (r.call_id, r.tool_name)

module _ {W : Type 0} (actions : Actions W) where
  -- The world after a call: the action has run, or nothing has happened.
  abbrev pub effect : PendingCall → Bool → W → W
  effect c ran w = if ran then (execute actions (call_of c) w).1 else w

  -- The world after the calls whose payloads say that they were run, in their order.
  pub replay : List PendingCall → List ResultPayload → W → W
  replay (c ∷ cs) (r ∷ rs) w = replay cs rs (effect c (is_run r.decision) w)
  replay _ _ w = w

  carry_out-effect :
      (c : PendingCall) (d : Decision) (w : W)
      → d.allow ≡ is_run d.recorded
      → (carry_out actions c d w).1 ≡ effect c (is_run (carry_out actions c d w).0.decision) w
  unfolding carry_out
  carry_out-effect c d w h = ground arith

  after_prompt-effect :
      (c : PendingCall) (r : Result Str Decision) (w : W)
      → Records r
      → (after_prompt actions c r w).1 ≡ effect c (is_run (after_prompt actions c r w).0.decision) w
  unfolding after_prompt
  after_prompt-effect c (ok d) w h = carry_out-effect c d w h
  after_prompt-effect c (err e) w h = refl

  pub handle_call-effect :
      (policy : Policy) (c : PendingCall) (p : Prompter) (w : W)
      → let (r, p', w') = handle_call actions policy c p w in w' ≡ effect c (is_run r.decision) w
  unfolding handle_call
  handle_call-effect policy c p w = ground (
    arith,
    evaluate-records policy c.name c.risk,
    carry_out-effect c (evaluate policy c.name c.risk).0 w,
    after_prompt-effect c (confirm c p).0 w (confirm-Records c p),
  )

  pub handle_call-answers :
      (policy : Policy) (c : PendingCall) (p : Prompter) (w : W)
      → let (r, p', w') = handle_call actions policy c p w in
        (r.call_id ≡ c.id) × (r.tool_name ≡ c.name) × (r.risk ≡ c.risk)
  unfolding handle_call carry_out after_prompt
  handle_call-answers policy c p w = ground arith

  -- Every pending call is answered by one payload, in the order of the calls, that names its id and
  -- its tool: a refusal is reported too.
  pub handle-answers :
      (policy : Policy) (pending : List PendingCall) (p : Prompter) (w : W)
      → map answered (handle actions policy pending p w).0 ≡ map asked pending
  unfolding handle
  handle-answers policy [] p w = refl
  handle-answers policy (c ∷ cs) p w =
      let (r, p', w') = handle_call actions policy c p w in
      ground (arith, handle_call-answers policy c p w, handle-answers policy cs p' w')

  -- The machine changes by exactly the calls whose recorded decision is auto or approved, run once
  -- each and in order; a denied or blocked call does nothing.
  pub handle-replay :
      (policy : Policy) (pending : List PendingCall) (p : Prompter) (w : W)
      → let (rs, p', w') = handle actions policy pending p w in w' ≡ replay pending rs w
  unfolding handle replay
  handle-replay policy [] p w = refl
  handle-replay policy (c ∷ cs) p w =
      let (r, p', w') = handle_call actions policy c p w in
      handle-replay policy cs p' w'
      ∙ ap (replay cs (handle actions policy cs p' w').0) (handle_call-effect policy c p w)
