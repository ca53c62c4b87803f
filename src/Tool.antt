-- ===== src/Tool.antt =====
-- internal/tool/tool.go: the vocabulary that the model, the server and the client share.
pub mod Registry
mod Tests
use wintermute.Prelude.{Bool, true, false}
use wintermute.Prelude.Str.{Str}

-- `type Side string`
pub data Side : Type 0 where
  server client : Side
  other_side : Str → Side

-- `type Risk string`: the three constants, and whatever else a message may carry.
pub data Risk : Type 0 where
  read write destructive : Risk
  other_risk : Str → Risk

unfoldable pub valid : Risk → Bool
valid read = true
valid write = true
valid destructive = true
valid (other_risk s) = false

-- JSON texts (`Parameters`, `Input`) are passed on as they stand.
pub record Definition : Type 0 where
  pub name : Str
  pub description : Str
  pub parameters : Str
  pub risk : Risk
  pub side : Side

pub record Call : Type 0 where
  pub id : Str
  pub name : Str
  pub input : Str

pub record ToolResult : Type 0 where
  pub call_id : Str
  pub content : Str
  pub is_error : Bool

-- `Errorf`, with the message already formatted.
abbrev pub errorf : Str → Str → ToolResult
errorf call_id content = record { call_id = call_id; content = content; is_error = true }

-- What a handler returns: its output, or an error with its text.
pub data Outcome : Type 0 where
  done : Str → Outcome
  failed : Str → Outcome

-- `Handler`: it runs against a world `W` that the program does not see into.
abbrev pub Handler : Type 0 → Type 0
Handler W = Str → W → Outcome × W
