-- ===== src/Tool/Tests.antt =====
-- internal/tool: the registry at work on two registrations of one name and one of another.
use wintermute.Prelude.{ℕ, suc, some, List, [], ◌∷◌}
use wintermute.Prelude.Str.{codes}
use wintermute.Tool.{server, read, write, Definition, done, Handler}
use wintermute.Tool.Registry.{new_registry}
use wintermute.Tool.Registry.Laws.{
  Registration, on_server, on_client, enter_all, IsRegistry, enter_all-IsRegistry,
}

abbrev clock_tool : Definition
clock_tool = record {
  name = codes "now";
  description = [];
  parameters = [];
  risk = read;
  side = server;
}

abbrev count_up : Handler ℕ
count_up input w = (done [], suc w)

abbrev registrations : List (Registration ℕ)
registrations =
    on_server clock_tool (some count_up)
    ∷ on_client (record clock_tool { name = codes "edit"; risk = write })
    ∷ on_client clock_tool
    ∷ []

enter_all-IsRegistry_example : IsRegistry (enter_all registrations new_registry)
enter_all-IsRegistry_example = enter_all-IsRegistry registrations
