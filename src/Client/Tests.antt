-- ===== src/Client/Tests.antt =====
-- internal/client: the theorems at work on a client with one tool, which counts its runs.
use wintermute.Prelude.{
  ℕ, suc, inl, inr, Option, none, some, Bool-cases, arith, if◌then◌else◌, ◌+◌, ◌≤◌, ◌≡◌, ◌≢◌, refl,
  ◌&&◌, Bool, true, false, List, [], ◌∷◌, map, All, ◌==◌,
}
use wintermute.Prelude.Str.{Str, codes, str_eq, str_beq, to_lower, trim_space}
use wintermute.Prelude.Assoc.{lookup}
use wintermute.Tool.{Risk, destructive, client, done}
use wintermute.Client.Approval.{
  Policy, PendingCall, Prompter, eof, approved, is_set, evaluate, confirm, answer,
}
use wintermute.Client.Approval.Laws.{accepts, is_run}
use wintermute.Client.Harness.{
  Action, Actions, execute, after_prompt, carry_out, handle_call, handle,
}
use wintermute.Client.Harness.Laws.{asked, answered, replay, handle-answers, handle-replay}
use wintermute.Client.Harness.Safety.{
  destructive_runs, handle-consent, handle-deny_rest, handle-never_allow,
}

abbrev remove : Action ℕ
remove = record {
  definition = record {
    name = codes "rm";
    description = [];
    parameters = [];
    risk = destructive;
    side = client;
  };
  run = λ input w. (done [], suc w);
}

abbrev one_tool : Actions ℕ
one_tool = (codes "rm", remove) ∷ []

abbrev call_as : Risk → PendingCall
call_as risk = record {
  id = codes "1";
  name = codes "rm";
  input = codes "x";
  risk = risk;
  description = [];
}

abbrev cautious : Policy
cautious = record {
  auto_approve_reads = true;
  always_allow = [];
  never_allow = [];
  assume_yes = true;
}

abbrev trusting : Policy
trusting = record cautious { always_allow = (codes "rm", true) ∷ [] }

abbrev says_yes : Prompter
says_yes = record {
  lines = codes "yes" ∷ codes "no" ∷ [];
  ending = eof;
  session_allow = [];
  deny_rest = false;
}

abbrev has_quit : Prompter
has_quit = record says_yes { deny_rest = true }

abbrev two_calls : List PendingCall
two_calls = call_as destructive ∷ call_as destructive ∷ []

abbrev is_rm : Str → Bool
is_rm name = name == codes "rm"

-- The first call is run, on the first line, and the second is not.
two_calls_run : (handle one_tool cautious two_calls says_yes 0).2 ≡ 1
unfolding handle handle_call str_beq evaluate after_prompt confirm answer to_lower trim_space
    carry_out execute
two_calls_run = refl

handle-answers_example :
    map answered (handle one_tool cautious two_calls says_yes 0).0 ≡ map asked two_calls
handle-answers_example = handle-answers one_tool cautious two_calls says_yes 0

handle-replay_example :
    let (rs, p', w') = handle one_tool cautious two_calls says_yes 0 in
    w' ≡ replay one_tool two_calls rs 0
handle-replay_example = handle-replay one_tool cautious two_calls says_yes 0

handle-consent_example :
    let (rs, p', w') = handle one_tool cautious two_calls says_yes 0 in
    (destructive_runs rs + accepts p'.lines ≤ accepts says_yes.lines)
    × (w' ≡ replay one_tool two_calls rs 0)
unfolding str_beq
handle-consent_example =
    handle-consent one_tool cautious is_rm two_calls says_yes 0 (refl, (refl, tt)) (λ n h. refl)
      (λ n h. refl)

-- An unclear line, then "q", then a yes that is not read.
abbrev quits : Prompter
quits = record says_yes { lines = codes "hm" ∷ codes "q" ∷ codes "yes" ∷ [] }

known : lookup (codes "rm") one_tool ≢ none
unfolding str_beq
known h = cc h

handle-deny_rest_example :
    let (rs, p', w') = handle one_tool cautious two_calls quits 0 in
    All (λ r. r.decision ≢ approved) rs
    × (p' ≡ record quits { lines = codes "yes" ∷ []; deny_rest = true })
    × (w' ≡ replay one_tool two_calls rs 0)
unfolding evaluate answer to_lower trim_space str_beq
handle-deny_rest_example =
    handle-deny_rest one_tool cautious (call_as destructive) (call_as destructive ∷ []) quits 0
      (codes "hm" ∷ []) (codes "q") (codes "yes" ∷ []) known refl refl refl refl (refl, tt) refl

abbrev forbidding : Policy
forbidding = record trusting { never_allow = (codes "rm", true) ∷ [] }

-- The only action, which counts up, is never allowed.
spared :
    (b : Bool) (action : Action ℕ) (w : ℕ) (input : Str)
    → ◌≡◌ {A = Option (Action ℕ)} (if b then some remove else none) (some action)
    → (if b then true else false) ≡ false
    → w ≡ 0
    → (action.run input w).1 ≡ 0
spared true action w input q n h = ground arith
spared false action w input q n h = ground arith

each_spared :
    (name input : Str) (action : Action ℕ) (w : ℕ)
    → lookup name one_tool ≡ some action
    → is_set name forbidding.never_allow ≡ false
    → w ≡ 0
    → (action.run input w).1 ≡ 0
each_spared name input action w q n h = elim (Bool-cases (codes "rm" == name)) [
  | inl e ↦ ground arith
  | inr e ↦ ground arith
]

handle-never_allow_example :
    let (rs, p', w') = handle one_tool forbidding two_calls says_yes 0 in
    All (λ r. (is_run r.decision && is_set r.tool_name forbidding.never_allow) ≡ false) rs
    × (w' ≡ 0)
handle-never_allow_example =
    handle-never_allow one_tool forbidding (λ w. w ≡ 0) each_spared two_calls says_yes 0 refl
