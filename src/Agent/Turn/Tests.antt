-- ===== src/Agent/Turn/Tests.antt =====
-- agent.go: a turn of two rounds, over a transcript that is a list and a model that counts its completions.
use mathlib.Core.List.{map-id}
use wintermute.Prelude.{
  ℕ, zero, suc, ◌+◌, ◌≤◌, ◌≡◌, refl, sym, ap, ◌∙◌, some, none, true, false, List, [], ◌∷◌, ◌++◌,
  map, Result, ok, arith, Bool, Option, if◌then◌else◌,
}
use wintermute.Prelude.Str.{Str, codes, str_eq, str_beq, quote, ltb_str}
use wintermute.Prelude.Results.{ok_inj}
use wintermute.Prelude.Sort.{sort_strings}
use wintermute.Tool.{server, read, Definition, Call, done, Handler}
use wintermute.Tool.Registry.{Registry, find_handler, find_definition, definitions}
use wintermute.Llm.Message.{assistant, user_message, Message, Request, Response}
use wintermute.Llm.Complete.{Routed}
use wintermute.Agent.Tools.{partition, place, owner_of, run_server_tool, next_streak}
use wintermute.Agent.Turn.{
  Turn, complete, Log, Scene, Setting, advance, turn_loop, turn_round, handle_calls, serve,
  refuse_unknown, write_result, stamp, served_by, recorded, with_prior_context, with_block,
}
use wintermute.Agent.Turn.Exchange.{IsLog, IsExchange}
use wintermute.Agent.Turn.Rounds.{advance-IsExchange}
use wintermute.Agent.Turn.Budget.{IsCounter, advance-count}

abbrev listed_log : Log (List Message)
listed_log = record { append = λ ms log. ok (log ++ ms); messages = λ log. ok log }

abbrev peek_tool : Definition
peek_tool = record {
  name = codes "peek";
  description = [];
  parameters = [];
  risk = read;
  side = server;
}

abbrev peek : Handler ℕ
peek input w = (done (codes "seen"), w)

abbrev registry : Registry ℕ
registry = record { defs = (codes "peek", peek_tool) ∷ []; handlers = (codes "peek", peek) ∷ [] }

abbrev said : Str → List Call → Response
said text calls = record {
  message = record (user_message text) { role = assistant; tool_calls = calls };
  stop_reason = [];
  usage = record { prompt_tokens = 1; completion_tokens = 2; total_tokens = 3 };
}

abbrev routed : Response → Routed
routed r = record {
  response = r;
  backend = codes "b";
  model = codes "m";
  fell_back_from = [];
  fallback_reason = [];
}

abbrev two_calls : List Call
two_calls =
    record { id = codes "1"; name = codes "peek"; input = [] }
    ∷ record { id = codes "2"; name = codes "poke"; input = [] }
    ∷ []

-- Calls two tools, one of them unknown, and then answers.
abbrev answer_of : ℕ → Response
answer_of zero = said [] two_calls
answer_of (suc n) = said (codes "done") []

abbrev ask : Request → ℕ → Result Str Routed × ℕ
ask req w = (ok (routed (answer_of w)), suc w)

abbrev setting : Setting (List Message) ℕ
setting = record {
  store = listed_log;
  registry = registry;
  ask = ask;
  system_prompt = [];
  prior_context = codes "c";
}

abbrev start : Scene (List Message) ℕ
start = record { log = []; world = 0; trail = [] }

abbrev question : List Message
question = user_message (codes "hi") ∷ []

abbrev as_it_is : Message → Message
as_it_is m = m

listed_log-IsLog : IsLog listed_log as_it_is
listed_log-IsLog = record {
  appends = λ ms a b h w q.
      ap ok (sym (ok_inj w) ∙ ap (λ x. x ++ ms) (ok_inj q) ∙ ap (λ x. h ++ x) (sym (map-id ms)));
}

abbrev the_turn : Turn
the_turn = record {
  status = complete;
  reply = codes "done";
  pending = [];
  usage = record { prompt_tokens = 2; completion_tokens = 4; total_tokens = 6 };
  backend = codes "b";
  model = codes "m";
  fell_back_from = [];
  fallback_reason = [];
}

turn_runs : (advance setting (codes "m") 5 question start).0 ≡ ok the_turn
unfolding advance turn_loop turn_round handle_calls serve refuse_unknown write_result stamp
    served_by recorded with_prior_context with_block partition place owner_of find_definition
    find_handler run_server_tool next_streak definitions sort_strings quote str_beq ltb_str
turn_runs = refl

advance-IsExchange_example :
    IsExchange setting as_it_is
      ([] ++ map as_it_is question)
      the_turn
      (advance setting (codes "m") 5 question start).1.log
advance-IsExchange_example =
    advance-IsExchange setting as_it_is listed_log-IsLog (codes "m") 5 question start [] the_turn
      refl turn_runs

abbrev left_by : Option (Handler ℕ) → Str → ℕ → ℕ
left_by none input w = w
left_by (some h) input w = (h input w).1

only_peek :
    (b : Bool) (h : Handler ℕ)
    → ◌≡◌ {A = Option (Handler ℕ)} (if b then some peek else none) (some h)
    → (input : Str) (w : ℕ) → (h input w).1 ≡ w
only_peek true h q input w = sym (ap (λ o. left_by o input w) q)
only_peek false h q input w = ground arith

counted : IsCounter setting (λ w. w)
unfolding find_handler
counted = record { asked = λ req w. refl; quiet = λ name h q. only_peek _ h q }

advance-count_example : (advance setting (codes "m") 5 question start).1.world ≤ 0 + 5
advance-count_example = advance-count setting (λ w. w) counted (codes "m") 5 question start
