-- ===== src/Agent/Tools.antt =====
-- internal/agent/agent.go partition and runServerTool, with the audit trail of
-- internal/store/audit.go as the list of what is recorded. A handler acts on a world `W`.
pub mod Audit
mod Tests
use wintermute.Prelude.{
  ℕ, ◌+◌, not, leb, ◌==◌, if◌then◌else◌, Bool, true, false, Option, none, some, List, [], ◌∷◌, ◌++◌,
}
use wintermute.Prelude.Str.{Str, codes, str_eq, quote}
use wintermute.Tool.{
  Side, server, client, other_side, Risk, other_risk, Definition, Call, ToolResult, errorf, Outcome,
  done, failed, Handler,
}
use wintermute.Tool.Registry.{Registry, find_definition, find_handler}

-- What the loop makes of a response's calls.
pub record Split : Type 0 where
  pub server_calls : List Call
  pub client_calls : List Call
  pub unknown_calls : List Call

pub data Owner : Type 0 where
  owned_by_server owned_by_client unknown : Owner

abbrev pub owner_side : Side → Owner
owner_side client = owned_by_client
owner_side server = owned_by_server
owner_side (other_side s) = owned_by_server

-- The three cases of `partition`.
unfoldable pub owner_of : Option Definition → Owner
owner_of none = unknown
owner_of (some def) = owner_side def.side

-- A call is put in front of those behind it that have the same owner.
unfoldable pub place : Owner → Call → Split → Split
place owned_by_server c s = record s { server_calls = c ∷ s.server_calls }
place owned_by_client c s = record s { client_calls = c ∷ s.client_calls }
place unknown c s = record s { unknown_calls = c ∷ s.unknown_calls }

pub record AuditEntry : Type 0 where
  pub call_id : Str
  pub tool_name : Str
  pub risk : Risk
  pub input : Str
  pub outcome : Str
  pub is_error : Bool

-- The risk of a definition, or the empty string of the zero value.
abbrev pub risk_of : Option Definition → Risk
risk_of none = other_risk []
risk_of (some def) = def.risk

abbrev pub tool_result : Call → Outcome → ToolResult
tool_result c (done out) = record { call_id = c.id; content = out; is_error = false }
tool_result c (failed e) = errorf c.id (codes "tool " ++ quote c.name ++ codes " failed: " ++ e)

-- `repeatedToolFailureLimit`
abbrev pub repeated_tool_failure_limit : ℕ
repeated_tool_failure_limit = 3

-- `lastFailure` and `repeats`
pub record Streak : Type 0 where
  pub last_failure : Str
  pub repeats : ℕ

-- How a result changes them. The source compares `repeats` with the limit only where it has counted up;
-- it is below the limit in the other two cases.
unfoldable pub next_streak : Call → ToolResult → Streak → Streak
next_streak c res s =
    let key = c.name ++ codes ": " ++ res.content in
    if not res.is_error
    then record { last_failure = []; repeats = 0 }
    else if key == s.last_failure
    then record s { repeats = s.repeats + 1 }
    else record { last_failure = key; repeats = 1 }

pub record ToolRun (W : Type 0) : Type 0 where
  pub results : List ToolResult
  pub world : W
  pub trail : List AuditEntry
  pub streak : Streak
  pub stopped : Bool

module _ {W : Type 0} where
  unfoldable pub partition : Registry W → List Call → Split
  partition r [] = record { server_calls = []; client_calls = []; unknown_calls = [] }
  partition r (c ∷ cs) = place (owner_of (find_definition r c.name)) c (partition r cs)

  -- `runServerTool`, on the world and the audit trail.
  unfoldable pub run_server_tool :
      Registry W → Str → Call → W → List AuditEntry → ToolResult × W × List AuditEntry
  run_server_tool r audit_id c w trail = elim (find_handler r c.name) [
    | none ↦ (
      errorf c.id (codes "tool " ++ quote c.name ++ codes " has no server-side handler"),
      w,
      trail,
    )
    | some h ↦
        let (out, w') = h c.input w in
        let res = tool_result c out in
        (
          res,
          w',
          trail
              ++ record {
                call_id = audit_id;
                tool_name = c.name;
                risk = risk_of (find_definition r c.name);
                input = c.input;
                outcome = res.content;
                is_error = res.is_error;
              }
                ∷ [],
        )
  ]

  -- The loop of `Advance` over the server's calls: the results that it appends to the transcript, up to
  -- the one that ends the turn.
  unfoldable pub run_server_tools :
      Registry W → Streak → List Call → W → List AuditEntry → ToolRun W
  run_server_tools r s [] w trail = record {
    results = [];
    world = w;
    trail = trail;
    streak = s;
    stopped = false;
  }
  run_server_tools r s (c ∷ cs) w trail =
      let (res, w', trail') = run_server_tool r c.id c w trail in
      let s' = next_streak c res s in
      let rest = run_server_tools r s' cs w' trail' in
      if leb repeated_tool_failure_limit s'.repeats
      then record { results = res ∷ []; world = w'; trail = trail'; streak = s'; stopped = true }
      else record rest { results = res ∷ rest.results }
