-- ===== src/Agent/Tools/Tests.antt =====
-- agent.go: the server's calls of a response, run with a registry that has one tool.
use wintermute.Prelude.{arith, ℕ, suc, some, List, [], ◌∷◌}
use wintermute.Prelude.Str.{Str, codes}
use wintermute.Tool.{server, read, Call, done, Handler}
use wintermute.Tool.Registry.{Registry, new_registry}
use wintermute.Tool.Registry.Laws.{on_server, enter_all, enter_all-IsRegistry}
use wintermute.Agent.Tools.{Streak, partition, run_server_tools}
use wintermute.Agent.Tools.Audit.{IsAnswered, run_server_tools-IsAnswered}

abbrev count_up : Handler ℕ
count_up input w = (done (codes "ok"), suc w)

abbrev counting : Registry ℕ
counting =
    enter_all
      (on_server
          (record {
            name = codes "count";
            description = [];
            parameters = [];
            risk = read;
            side = server;
          })
          (some count_up)
        ∷ [])
      new_registry

abbrev call_of_name : Str → Call
call_of_name name = record { id = codes "1"; name = name; input = [] }

abbrev three_calls : List Call
three_calls =
    call_of_name (codes "count")
    ∷ call_of_name (codes "nothing")
    ∷ call_of_name (codes "count")
    ∷ []

abbrev fresh : Streak
fresh = record { last_failure = []; repeats = 0 }

run_server_tools-IsAnswered_example :
    IsAnswered counting []
      (partition counting three_calls).server_calls
      []
      (run_server_tools counting fresh (partition counting three_calls).server_calls 0 [])
run_server_tools-IsAnswered_example =
    run_server_tools-IsAnswered counting fresh [] three_calls 0 [] (enter_all-IsRegistry _)
      (omega arith)
