-- ===== src/Agent/Turn.antt =====
-- internal/agent/agent.go Advance, once the registry and the system prompt of the turn are made. Where the
-- history lives is an interface, and Router.Complete for the session's backend is a parameter that acts
-- on the world of the tools; both may fail with a text.
pub mod Exchange
pub mod Rounds
pub mod Budget
pub mod Stored
mod Tests
use wintermute.Prelude.{
  ℕ, zero, suc, ◌+◌, Bool, true, false, Option, none, some, List, [], ◌∷◌, ◌++◌, map, leb, ◌==◌,
  nat_eq, if◌then◌else◌, Result, ok, err,
}
use wintermute.Prelude.Str.{Str, codes, str_eq, quote, trim_space}
use wintermute.Tool.{Risk, Definition, Call, ToolResult, errorf}
use wintermute.Tool.Registry.{Registry, find_definition, definitions}
use wintermute.Llm.Message.{
  Role, system, user, assistant, tool, other_role, Message, tool_message, Request, Usage, Response,
}
use wintermute.Llm.Complete.{Routed}
use wintermute.Agent.Tools.{
  Split, partition, risk_of, AuditEntry, Streak, next_streak, run_server_tool,
  repeated_tool_failure_limit,
}

-- `stamp`
unfoldable pub stamp : List Message → Str → Str → ℕ → List Message
stamp [] backend model tokens = []
stamp (m ∷ ms) backend model tokens =
    record m { backend = backend; model = model; token_count = tokens }
    ∷ stamp ms backend model tokens

is_user : Role → Bool
is_user user = true
is_user _ = false

-- `withPriorContext`: the newest message of the user gets the block in front of its text; nothing where
-- there is none.
unfoldable pub with_block : Str → List Message → Option (List Message)
unfolding is_user
with_block block [] = none
with_block block (m ∷ ms) = here (with_block block ms)
  where
    here : Option (List Message) → Option (List Message)
    here (some ms') = some (m ∷ ms')
    here none =
        if is_user m.role
        then some (record m { content = block ++ 10 ∷ 10 ∷ m.content } ∷ ms)
        else none

abbrev or_else : List Message → Option (List Message) → List Message
or_else ms none = ms
or_else ms (some ms') = ms'

unfoldable pub with_prior_context : List Message → Str → List Message
with_prior_context history [] = history
with_prior_context history (c ∷ block) = or_else history (with_block (c ∷ block) history)

-- `lastUserText`
unfoldable pub last_user_text : List Message → Str
unfolding is_user
last_user_text [] = []
last_user_text (m ∷ ms) = here (last_user_text ms)
  where
    here : Str → Str
    here (c ∷ cs) = c ∷ cs
    here [] = if is_user m.role then (if trim_space m.content == [] then [] else m.content) else []

-- `PendingCall` and `describe`
pub record Pending : Type 0 where
  pub call : Call
  pub risk : Risk
  pub description : Str

abbrev pub description_of : Option Definition → Str
description_of none = []
description_of (some def) = def.description

pub data Status : Type 0 where
  unset : Status
  complete : Status
  awaiting_client : Status

pub record Turn : Type 0 where
  pub status : Status
  pub reply : Str
  pub pending : List Pending
  pub usage : Usage
  pub backend : Str
  pub model : Str
  pub fell_back_from : Str
  pub fallback_reason : Str

pub data TurnFault : Type 0 where
  transcript_failed : Str → TurnFault
  completion_failed : Str → TurnFault
  repeated_tool_failure : Str → ℕ → TurnFault
  too_many_iterations : Str → TurnFault

abbrev pub plus : Usage → Usage → Usage
plus a b = record {
  prompt_tokens = a.prompt_tokens + b.prompt_tokens;
  completion_tokens = a.completion_tokens + b.completion_tokens;
  total_tokens = a.total_tokens + b.total_tokens;
}

-- What a completion writes into the turn.
unfoldable pub served_by : Routed → Turn → Turn
served_by res t =
    let t' = record t {
      backend = res.backend;
      model = res.model;
      usage = plus t.usage res.response.usage;
    } in
    if res.fell_back_from == []
    then t'
    else record t' { fell_back_from = res.fell_back_from; fallback_reason = res.fallback_reason }

-- The assistant's message with what served it.
unfoldable pub recorded : Routed → Message
recorded res = record res.response.message {
  backend = res.backend;
  model = res.model;
  token_count = res.response.usage.completion_tokens;
}

-- `Transcript`: where the history lives.
pub record Log (T : Type 0) : Type 0 where
  pub append : List Message → T → Result Str T
  pub messages : T → Result Str (List Message)

-- What a turn acts on.
pub record Scene (T W : Type 0) : Type 0 where
  pub log : T
  pub world : W
  pub trail : List AuditEntry

-- What a turn is given.
pub record Setting (T W : Type 0) : Type 0 where
  pub store : Log T
  pub registry : Registry W
  pub ask : Request → W → Result Str Routed × W
  pub system_prompt : Str
  pub prior_context : Str

unfoldable pub describe : {W : Type 0} → Registry W → List Call → List Pending
describe r [] = []
describe r (c ∷ cs) =
    let def = find_definition r c.name in
    record { call = c; risk = risk_of def; description = description_of def } ∷ describe r cs

abbrev pub unknown_result : Call → ToolResult
unknown_result c =
    errorf c.id (codes "unknown tool " ++ quote c.name ++ codes "; use one of the tools provided")

abbrev pub failure_key : Call → ToolResult → Str
failure_key c res = c.name ++ codes ": " ++ res.content

abbrev pub completed : Routed → Turn → Turn
completed res t = record t { status = complete; reply = res.response.message.content }

abbrev pub is_none {ℓ} : {A : Type ℓ} → List A → Bool
is_none [] = true
is_none (x ∷ xs) = false

-- What becomes of a round: the turn, or the streak to go on with.
pub data After : Type 0 where
  ended : Turn → After
  goes_on : Turn → Streak → After

abbrev pub new_turn : Turn
new_turn = record {
  status = unset;
  reply = [];
  pending = [];
  usage = record { prompt_tokens = 0; completion_tokens = 0; total_tokens = 0 };
  backend = [];
  model = [];
  fell_back_from = [];
  fallback_reason = [];
}

abbrev pub no_streak : Streak
no_streak = record { last_failure = []; repeats = 0 }

module _ {T W : Type 0} where
  -- A tool's result as it is written to the transcript.
  unfoldable pub write_result : Setting T W → Turn → ToolResult → T → Result Str T
  write_result g t res log = g.store.append (stamp (tool_message res ∷ []) t.backend t.model 0) log

  -- The loop over the unknown calls.
  unfoldable pub refuse_unknown : Setting T W → Turn → List Call → T → Result Str (Unit {0}) × T
  refuse_unknown g t [] log = (ok tt, log)
  refuse_unknown g t (c ∷ cs) log = elim (write_result g t (unknown_result c) log) [
    | ok log' ↦ refuse_unknown g t cs log'
    | err e ↦ (err e, log)
  ]

  -- The loop over the server's calls: each is run, its result written, and the streak of failures moved on.
  unfoldable pub serve :
      Setting T W → Turn → Streak → List Call → Scene T W → Result TurnFault Streak × Scene T W
  serve g t s [] st = (ok s, st)
  serve g t s (c ∷ cs) st =
      let (res, w', trail') = run_server_tool g.registry c.id c st.world st.trail in
      elim (write_result g t res st.log) [
        | ok log' ↦
            let s' = next_streak c res s in
            let st' : Scene T W = record { log = log'; world = w'; trail = trail' } in
            let rest = serve g t s' cs st' in
            if leb repeated_tool_failure_limit s'.repeats
            then (err (repeated_tool_failure (failure_key c res) s'.repeats), st')
            else rest
        | err e ↦ (err (transcript_failed e), record { log = st.log; world = w'; trail = trail' })
      ]

  -- The end of a round: the client's calls end the turn, and without them the loop goes on.
  abbrev pub with_pending : Setting T W → Routed → Turn → Turn
  with_pending g res t = record t {
    status = awaiting_client;
    reply = res.response.message.content;
    pending =
        describe g.registry (partition g.registry res.response.message.tool_calls).client_calls;
  }

  abbrev pub request_of : Setting T W → Str → List Message → Request
  request_of g model history = record {
    system = g.system_prompt;
    messages = with_prior_context history g.prior_context;
    tools = definitions g.registry;
    model = model;
  }

  -- The calls of a message: the unknown ones are refused, the server's are run, and the client's end the turn.
  unfoldable pub handle_calls :
      Setting T W → Routed → Turn → Streak → Scene T W → Result TurnFault After × Scene T W
  handle_calls g res t s st =
      let split = partition g.registry res.response.message.tool_calls in
      let (told, log') = refuse_unknown g t split.unknown_calls st.log in
      elim told [
        | err e ↦ (err (transcript_failed e), record st { log = log' })
        | ok u ↦
            let (served, st') = serve g t s split.server_calls (record st { log = log' }) in
            elim served [
              | err f ↦ (err f, st')
              | ok s' ↦
                  if is_none split.client_calls
                  then (ok (goes_on t s'), st')
                  else (ok (ended (with_pending g res t)), st')
            ]
      ]

  -- One round of the loop of `Advance`.
  unfoldable pub turn_round :
      Setting T W → Str → Turn → Streak → Scene T W → Result TurnFault After × Scene T W
  turn_round g model t s st = elim (g.store.messages st.log) [
    | err e ↦ (err (transcript_failed e), st)
    | ok history ↦
        let (answer, w') = g.ask (request_of g model history) st.world in
        let st' = record st { world = w' } in
        elim answer [
          | err e ↦ (err (completion_failed e), st')
          | ok res ↦ elim (g.store.append (recorded res ∷ []) st.log) [
            | err e ↦ (err (transcript_failed e), st')
            | ok log' ↦
                let st'' = record st' { log = log' } in
                let t' = served_by res t in
                if is_none res.response.message.tool_calls
                then (ok (ended (completed res t')), st'')
                else handle_calls g res t' s st''
          ]
        ]
  ]

  -- The loop of `Advance`, over the iterations that are left.
  unfoldable pub turn_loop :
      Setting T W → Str → ℕ → Turn → Streak → Scene T W → Result TurnFault Turn × Scene T W
  turn_loop g model zero t s st = (err (too_many_iterations s.last_failure), st)
  turn_loop g model (suc n) t s st =
      let (after, st') = turn_round g model t s st in
      elim after [
        | err f ↦ (err f, st')
        | ok (ended t') ↦ (ok t', st')
        | ok (goes_on t' s') ↦ turn_loop g model n t' s' st'
      ]

  -- `Advance`, from the incoming messages as they are stamped.
  unfoldable pub advance :
      Setting T W → Str → ℕ → List Message → Scene T W → Result TurnFault Turn × Scene T W
  advance g model max_iterations incoming st = elim (g.store.append incoming st.log) [
    | err e ↦ (err (transcript_failed e), st)
    | ok log' ↦ turn_loop g model max_iterations new_turn no_streak (record st { log = log' })
  ]
