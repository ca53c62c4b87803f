-- ===== src/Llm/Message.antt =====
-- internal/llm/llm.go: the flat message shape, requests and responses. Token counts are Go ints,
-- added with no wrap-around. The temperature and the token limit of a
-- request, which only the providers read, are left out.
use wintermute.Prelude.{ℕ, Bool, false, List, []}
use wintermute.Prelude.Str.{Str}
use wintermute.Tool.{Call, Definition, ToolResult}

-- `type Role string`
pub data Role : Type 0 where
  system user assistant tool : Role
  other_role : Str → Role

pub record Message : Type 0 where
  pub role : Role
  pub content : Str
  pub tool_calls : List Call
  pub tool_call_id : Str
  pub is_error : Bool
  pub thinking : List Str
  pub backend : Str
  pub model : Str
  pub token_count : ℕ

abbrev pub user_message : Str → Message
user_message text = record {
  role = user;
  content = text;
  tool_calls = [];
  tool_call_id = [];
  is_error = false;
  thinking = [];
  backend = [];
  model = [];
  token_count = 0;
}

abbrev pub tool_message : ToolResult → Message
tool_message res = record {
  role = tool;
  content = res.content;
  tool_calls = [];
  tool_call_id = res.call_id;
  is_error = res.is_error;
  thinking = [];
  backend = [];
  model = [];
  token_count = 0;
}

pub record Request : Type 0 where
  pub system : Str
  pub messages : List Message
  pub tools : List Definition
  pub model : Str

pub record Usage : Type 0 where
  pub prompt_tokens : ℕ
  pub completion_tokens : ℕ
  pub total_tokens : ℕ

pub record Response : Type 0 where
  pub message : Message
  pub stop_reason : Str
  pub usage : Usage
