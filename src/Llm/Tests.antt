-- ===== src/Llm/Tests.antt =====
-- internal/llm: the theorems at work on a router with two backends, of which the first is down. The
-- world is marked by the calls of the second.
use wintermute.Prelude.{
  ℕ, ◌≤◌, ap, subst, arith, ◌≡◌, ◌≢◌, refl, ◌⊎◌, true, false, Option, none, some, [], ◌∷◌, ok, err,
}
use wintermute.Prelude.Str.{codes, str_eq, str_beq, ltb_str, trim_space}
use wintermute.Prelude.Sort.{sort_strings}
use wintermute.Llm.Message.{user_message, Request, Response}
use wintermute.Llm.Router.{
  Backend, Router, replace, checked, declare, install, find_backend, chosen_default,
}
use wintermute.Llm.Router.Replace.{IsServing, IsInstalled, replace-IsServing}
use wintermute.Llm.Complete.{
  Context, default_model, backend_complete, record_sample, complete_with, trim_error, after_failure,
  complete,
}
use wintermute.Llm.Complete.Laws.{Keeps, complete-keeps}
use wintermute.Llm.Complete.Told.{Told, complete-Told}

abbrev no_usage : Response
no_usage = record {
  message = user_message (codes "hi");
  stop_reason = [];
  usage = record { prompt_tokens = 0; completion_tokens = 0; total_tokens = 0 };
}

abbrev down : Backend ℕ
down = record {
  name = codes "a";
  provider = λ req w. (err (codes "no"), w);
  model = codes "m";
  cloud = true;
}

abbrev up : Backend ℕ
up = record {
  name = codes "b";
  provider = λ req w. (ok no_usage, 1);
  model = codes "n";
  cloud = false;
}

abbrev empty_router : Router ℕ
empty_router = record { backends = []; order = []; def = []; fallback = []; recorder = none }

abbrev two_router : Router ℕ
two_router = record {
  backends = (codes "a", down) ∷ (codes "b", up) ∷ [];
  order = codes "a" ∷ codes "b" ∷ [];
  def = codes "a";
  fallback = codes "b";
  recorder = none;
}

abbrev wild : Backend ℕ
wild = record { name = codes "c"; provider = λ req w. (ok no_usage, 9); model = []; cloud = false }

abbrev three_router : Router ℕ
three_router = record two_router {
  backends = (codes "a", down) ∷ (codes "b", up) ∷ (codes "c", wild) ∷ [];
}

abbrev calm : Context ℕ
calm = record { cancelled = λ w. false; now = λ w. w }

abbrev question : Request
question = record { system = []; messages = user_message (codes "x") ∷ []; tools = []; model = [] }

replace_runs : replace empty_router (down ∷ up ∷ []) [] (codes "b") ≡ (two_router, none)
unfolding replace checked declare str_beq install chosen_default sort_strings ltb_str
replace_runs = refl

replace-IsServing_example :
    let (r', e) = replace empty_router (down ∷ up ∷ []) [] (codes "b") in
    ((e ≢ none) × (r' ≡ empty_router))
    ⊎ ((e ≡ none) × IsServing r' × IsInstalled empty_router (down ∷ up ∷ []) [] (codes "b") r')
replace-IsServing_example = replace-IsServing empty_router (down ∷ up ∷ []) [] (codes "b")

abbrev backend_of : Option (Backend ℕ) → Backend ℕ
backend_of none = down
backend_of (some b) = b

abbrev Small : ℕ → Type 0
Small w = w ≤ 1

-- Neither of the two backends makes the world larger than 1; a third, which nothing selects, may.
first-Keeps : (b : Backend ℕ) → find_backend three_router [] ≡ some b → Keeps calm Small b
unfolding find_backend str_beq
first-Keeps b q = subst (Keeps calm Small) (ap backend_of q) (λ req w h. h)

second-Keeps :
    (b : Backend ℕ)
    → find_backend three_router (codes "b") ≡ some b
    → codes "b" ≢ []
    → Keeps calm Small b
unfolding find_backend str_beq
second-Keeps b q n = subst (Keeps calm Small) (ap backend_of q) (λ req w h. omega arith)

complete-keeps_example :
    Small (complete calm three_router three_router three_router [] question 0).1
unfolding record_sample
complete-keeps_example =
    complete-keeps calm Small three_router three_router three_router [] question 0 first-Keeps
      second-Keeps (λ s w h. h) (λ s w h. h) (omega arith)

complete-Told_example : Told calm two_router two_router two_router [] 0 question (record {
  response = no_usage;
  backend = codes "b";
  model = codes "n";
  fell_back_from = codes "a";
  fallback_reason = codes "no";
})
unfolding complete complete_with backend_complete default_model after_failure trim_error trim_space
    find_backend str_beq
complete-Told_example = complete-Told calm two_router two_router two_router [] question 0 refl
