-- ===== src/Client/Harness.antt =====
-- internal/client/harness.go and the dispatch of internal/client/actions/actions.go: each pending
-- call is decided on, run or refused, and answered. The actions themselves run on a world `W`, the
-- machine, that they alone change. What is printed for the user is left out.
pub mod Laws
pub mod Safety
use wintermute.Prelude.{
  Bool, true, false, Option, none, some, List, [], ◌∷◌, ◌++◌, Result, ok, err, if◌then◌else◌, ◌==◌,
}
use wintermute.Prelude.Str.{Str, codes, quote, str_eq}
use wintermute.Prelude.Assoc.{Assoc, lookup}
use wintermute.Tool.{Risk, Definition, Call, ToolResult, errorf, Handler, Outcome, done, failed}
use wintermute.Client.Approval.{
  Recorded, unset, auto, approved, denied, blocked, Decision, Policy, evaluate, PendingCall,
  Prompter, confirm, reset, declined_reason,
}

pub record Action (W : Type 0) : Type 0 where
  pub definition : Definition
  pub run : Handler W

-- `Set.actions`
abbrev pub Actions : Type 0 → Type 0
Actions W = Assoc Str (Action W)

pub record ResultPayload : Type 0 where
  pub call_id : Str
  pub tool_name : Str
  pub input : Str
  pub content : Str
  pub is_error : Bool
  pub decision : Recorded
  pub risk : Risk

-- What `Set.Execute` makes of a handler's outcome.
outcome_result : Str → Outcome → ToolResult
outcome_result id (done out) = record { call_id = id; content = out; is_error = false }
outcome_result id (failed e) = errorf id e

abbrev pub refusal_suffix : Str
refusal_suffix = codes " The file was not changed. Do not retry it without being asked."

-- The payload of a call, with what `handle` has filled in.
abbrev pub payload_of : PendingCall → Recorded → Str → Bool → ResultPayload
payload_of call decision content is_error = record {
  call_id = call.id;
  tool_name = call.name;
  input = call.input;
  content = content;
  is_error = is_error;
  decision = decision;
  risk = call.risk;
}

module _ {W : Type 0} where
  -- `Set.Execute`
  unfoldable pub execute : Actions W → Call → W → ToolResult × W
  unfolding outcome_result
  execute actions call w = elim (lookup call.name actions) [
    | none ↦ (errorf call.id (codes "this machine has no tool named " ++ quote call.name), w)
    | some action ↦ let (out, w') = action.run call.input w in (outcome_result call.id out, w')
  ]

  -- The part of the loop's body that stands behind the decision.
  unfoldable pub carry_out : Actions W → PendingCall → Decision → W → ResultPayload × W
  carry_out actions call d w =
      if d.allow
      then (let (res, w') =
            execute actions (record { id = call.id; name = call.name; input = call.input }) w in
          (payload_of call d.recorded res.content res.is_error, w'))
      else (
        payload_of call d.recorded
            ((if d.reason == [] then declined_reason else d.reason) ++ refusal_suffix) false,
        w,
      )

  -- A prompt that could not be read is a refusal with an error.
  unfoldable pub after_prompt :
      Actions W → PendingCall → Result Str Decision → W → ResultPayload × W
  after_prompt actions call (ok d) w = carry_out actions call d w
  after_prompt actions call (err e) w =
      (payload_of call denied (codes "Approval could not be collected: " ++ e) true, w)

  -- The loop's body.
  unfoldable pub handle_call :
      Actions W → Policy → PendingCall → Prompter → W → ResultPayload × Prompter × W
  handle_call actions policy call p w = elim (lookup call.name actions) [
    | none ↦ (
      payload_of call blocked
          (codes "This machine has no tool named " ++ quote call.name ++ codes ".") true,
      p,
      w,
    )
    | some action ↦
        let (decision, settled) = evaluate policy call.name call.risk in
        if settled
        then (let (r, w') = carry_out actions call decision w in (r, p, w'))
        else (let (answered, p') = confirm call p in
            let (r, w') = after_prompt actions call answered w in (r, p', w'))
  ]

  unfoldable pub handle :
      Actions W → Policy → List PendingCall → Prompter → W → List ResultPayload × Prompter × W
  handle actions policy [] p w = ([], p, w)
  handle actions policy (call ∷ pending) p w =
      let (r, p', w') = handle_call actions policy call p w in
      let (rs, p'', w'') = handle actions policy pending p' w' in (r ∷ rs, p'', w'')
