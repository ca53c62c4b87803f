-- ===== src/Agent/Turn/Exchange.antt =====
-- agent.go: what a turn leaves in the transcript is a well-formed exchange.
use mathlib.Core.List.{append-nil, append_assoc}
use wintermute.Prelude.{
  ◌≡◌, ◌≢◌, refl, sym, ap, ◌∙◌, ◌⊎◌, inl, inr, Option-cases, if_intro, List, [], ◌∷◌, ◌++◌, map,
  All, arith, leb, Bool, true, false, not, Option, none, some, if◌then◌else◌, Result, ok, err,
}
use wintermute.Prelude.Results.{Result-cases}
use wintermute.Tool.{
  Side, server, client, other_side, Definition, Call, ToolResult, done, failed, Outcome,
}
use wintermute.Tool.Registry.{Registry, find_definition, find_handler}
use wintermute.Llm.Message.{tool, Message}
use wintermute.Agent.Tools.{
  AuditEntry, Split, owner_of, owner_side, place, partition, Streak, next_streak, run_server_tool,
  repeated_tool_failure_limit, tool_result,
}
use wintermute.Agent.Turn.{
  Turn, TurnFault, Log, Scene, Setting, complete, awaiting_client, stamp, describe, unknown_result,
  write_result, refuse_unknown, serve,
}

-- What is appended stands at the end of what is read next, each message in the form in which the transcript
-- keeps it.
pub record IsLog {T : Type 0} (store : Log T) (form : Message → Message) : Type 0 where
  pub appends :
      (ms : List Message) (a b : T) (h : List Message)
      → store.append ms a ≡ ok b
      → store.messages a ≡ ok h
      → store.messages b ≡ ok (h ++ map form ms)

-- Results that answer the calls of a list, one each and in order.
abbrev pub AnswersAll : List Call → List Message → Type 0
AnswersAll cs rs =
    (map (λ (m : Message). m.tool_call_id) rs ≡ map (λ (c : Call). c.id) cs)
    × All (λ (m : Message). m.role ≡ tool) rs

-- The calls that pass a test, in their order.
unfoldable pub those : (Call → Bool) → List Call → List Call
those test [] = []
those test (c ∷ cs) = let rest = those test cs in if test c then c ∷ rest else rest

abbrev pub at_client : Side → Bool
at_client client = true
at_client server = false
at_client (other_side s) = false

-- Whether a tool of the call's name is defined for the client, is defined for another side, or is not defined.
abbrev pub clients_tool : Option Definition → Bool
clients_tool (some d) = at_client d.side
clients_tool none = false

abbrev pub servers_tool : Option Definition → Bool
servers_tool (some d) = not (at_client d.side)
servers_tool none = false

abbrev pub no_tool : Option Definition → Bool
no_tool (some d) = false
no_tool none = true

abbrev pub for_client : {W : Type 0} → Registry W → List Call → List Call
for_client r cs = those (λ c. clients_tool (find_definition r c.name)) cs

abbrev pub for_server : {W : Type 0} → Registry W → List Call → List Call
for_server r cs = those (λ c. servers_tool (find_definition r c.name)) cs

abbrev pub for_none : {W : Type 0} → Registry W → List Call → List Call
for_none r cs = those (λ c. no_tool (find_definition r c.name)) cs

abbrev pub split_of : {W : Type 0} → Registry W → List Call → Split
split_of r cs = record {
  server_calls = for_server r cs;
  client_calls = for_client r cs;
  unknown_calls = for_none r cs;
}

placed :
    (o : Option Definition) (c : Call) (x y z : List Call)
    → place (owner_of o) c (record { server_calls = x; client_calls = y; unknown_calls = z })
      ≡ record {
        server_calls = if servers_tool o then c ∷ x else x;
        client_calls = if clients_tool o then c ∷ y else y;
        unknown_calls = if no_tool o then c ∷ z else z;
      }
unfolding place owner_of
placed none c x y z = refl
placed (some d) c x y z = by_side d.side
  where
    by_side :
        (s : Side)
        → place (owner_side s) c (record { server_calls = x; client_calls = y; unknown_calls = z })
          ≡ record {
            server_calls = if not (at_client s) then c ∷ x else x;
            client_calls = if at_client s then c ∷ y else y;
            unknown_calls = z;
          }
    by_side server = refl
    by_side client = refl
    by_side (other_side t) = refl

-- `partition` tells the calls apart by these tests, and drops none.
pub split_is : {W : Type 0} (r : Registry W) (cs : List Call) → partition r cs ≡ split_of r cs
unfolding partition those
split_is r [] = refl
split_is r (c ∷ cs) =
    ap (place (owner_of (find_definition r c.name)) c) (split_is r cs)
    ∙ placed (find_definition r c.name) c (for_server r cs) (for_client r cs) (for_none r cs)

-- The results after a message answer each of its calls but the client's: those whose tool is not defined
-- first, then those of the other sides, each in their order.
abbrev pub Answers : {W : Type 0} → Registry W → Message → List Message → Type 0
Answers r m rs = AnswersAll (for_none r m.tool_calls ++ for_server r m.tool_calls) rs

-- Rounds that are over: a message of the assistant with no call for the client, and the results of its calls.
pub data IsRounds {W : Type 0} (r : Registry W) : List Message → Type 0 where
  no_rounds : IsRounds r []
  next_round :
      (m : Message) (rs rest : List Message)
      → for_client r m.tool_calls ≡ []
      → Answers r m rs
      → IsRounds r rest
      → IsRounds r (m ∷ rs ++ rest)

-- How a turn ends: after whole rounds, with a message that calls for nothing, or with one whose remaining
-- calls are the client's and are handed to it.
pub record IsExchange {T W : Type 0} (g : Setting T W) (form : Message → Message)
    (old : List Message) (t : Turn) (log : T) : Type 0 where
  pub rounds : List Message
  pub last : Message
  pub results : List Message
  pub whole : g.store.messages log ≡ ok (old ++ map form (rounds ++ (last ∷ results)))
  pub over : IsRounds g.registry rounds
  pub answered : Answers g.registry last results
  pub replied : t.reply ≡ last.content
  pub outcome :
      ((t.status ≡ complete) × (last.tool_calls ≡ []))
      ⊎ ((t.status ≡ awaiting_client)
          × (t.pending ≡ describe g.registry (for_client g.registry last.tool_calls))
          × (for_client g.registry last.tool_calls ≢ []))

pub not_ok : {E A : Type 0} {a : A} (e : E) → ◌≢◌ {A = Result E A} (err e) (ok a)
not_ok e h = ground arith

module _ {T W : Type 0} (g : Setting T W) (form : Message → Message)
    (law : IsLog g.store form) where
  -- From a history, the results of some calls were written.
  abbrev pub Wrote : T → List Message → List Call → Type 0
  Wrote log h cs =
      (rs : List Message) × (g.store.messages log ≡ ok (h ++ map form rs)) × AnswersAll cs rs

  Wrote-empty : (log : T) (h : List Message) → g.store.messages log ≡ ok h → Wrote log h []
  Wrote-empty log h q = ([], q ∙ ap ok (sym (append-nil h)), (refl, tt))

  write_result-messages :
      (t : Turn) (res : ToolResult) (a b : T) (h : List Message)
      → write_result g t res a ≡ ok b
      → g.store.messages a ≡ ok h
      → (m : Message) × (g.store.messages b ≡ ok (h ++ (form m ∷ [])))
        × (m.tool_call_id ≡ res.call_id)
        × (m.role ≡ tool)
  unfolding write_result stamp
  write_result-messages t res a b h w q = (_, law.appends _ a b h w q, refl, refl)

  Wrote-more :
      (log : T) (h : List Message) (m : Message) (c : Call) (cs : List Call)
      → m.tool_call_id ≡ c.id
      → m.role ≡ tool
      → Wrote log (h ++ (form m ∷ [])) cs
      → Wrote log h (c ∷ cs)
  Wrote-more log h m c cs i k more = (
    m ∷ more.0,
    more.1 ∙ ap ok (append_assoc h (form m ∷ []) (map form more.0)),
    (
      ap (λ x. x ∷ map (λ (m : Message). m.tool_call_id) more.0) i ∙ ap (λ x. c.id ∷ x) more.2.0,
      (k, more.2.1),
    ),
  )

  pub refuse_unknown-Wrote :
      (t : Turn) (cs : List Call) (log : T) (h : List Message)
      → g.store.messages log ≡ ok h
      → (refuse_unknown g t cs log).0 ≡ ok tt
      → Wrote (refuse_unknown g t cs log).1 h cs
  unfolding refuse_unknown
  refuse_unknown-Wrote t [] log h q = λ k. Wrote-empty log h q
  refuse_unknown-Wrote t (c ∷ cs) log h q =
      elim (Result-cases (write_result g t (unknown_result c) log)) [
        | inl w ↦
            let (m, now, i, k) = write_result-messages t (unknown_result c) log w.0 h w.1 q in
            rw (w.1, refuse_unknown)
              (λ told.
                Wrote-more _ h m c cs i k
                  (refuse_unknown-Wrote t cs w.0 (h ++ (form m ∷ [])) now told))
        | inr f ↦ rw (f.1, refuse_unknown) (λ told. absurd (not_ok f.0 told))
      ]

  tool_result-id : (c : Call) (out : Outcome) → (tool_result c out).call_id ≡ c.id
  tool_result-id c (done out) = refl
  tool_result-id c (failed e) = refl

  run_server_tool-id :
      (c : Call) (w : W) (trail : List AuditEntry)
      → (run_server_tool g.registry c.id c w trail).0.call_id ≡ c.id
  unfolding run_server_tool
  run_server_tool-id c w trail = elim (Option-cases (find_handler g.registry c.name)) [
    | inl n ↦ rw (n, run_server_tool) refl
    | inr h ↦ rw (h.1, run_server_tool) (tool_result-id c (h.0 c.input w).0)
  ]

  pub serve-Wrote :
      (t : Turn) (s : Streak) (cs : List Call) (st : Scene T W) (h : List Message)
      → g.store.messages st.log ≡ ok h
      → (s' : Streak) → (serve g t s cs st).0 ≡ ok s'
      → Wrote (serve g t s cs st).1.log h cs
  unfolding serve
  serve-Wrote t s [] st h q = λ s' k. Wrote-empty st.log h q
  serve-Wrote t s (c ∷ cs) st h q =
      let (res, w', trail') = run_server_tool g.registry c.id c st.world st.trail in
      let id = run_server_tool-id c st.world st.trail in
      elim (Result-cases (write_result g t res st.log)) [
        | inl w ↦
            let (m, now, i, k) = write_result-messages t res st.log w.0 h w.1 q in
            let next = next_streak c res s in
            let st' : Scene T W = record { log = w.0; world = w'; trail = trail' } in
            let more = serve-Wrote t next cs st' (h ++ (form m ∷ [])) now in
            rw (w.1, serve)
              (if_intro
                (λ (x : Result TurnFault Streak × Scene T W).
                  (s' : Streak) → x.0 ≡ ok s' → Wrote x.1.log h (c ∷ cs))
                (leb repeated_tool_failure_limit next.repeats) (λ s' k. absurd (not_ok _ k))
                (λ s' told. Wrote-more _ h m c cs (i ∙ id) k (more s' told)))
        | inr f ↦ rw (f.1, serve) (λ s' k. absurd (not_ok _ k))
      ]
