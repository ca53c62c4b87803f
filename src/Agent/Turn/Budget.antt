-- ===== src/Agent/Turn/Budget.antt =====
-- agent.go Advance: maxIterations bounds the completions that a turn asks for.
use wintermute.Prelude.{
  ℕ, zero, suc, ◌+◌, ◌≤◌, ◌≡◌, refl, ap, ◌∙◌, inl, inr, Option-cases, if_intro, some, List, [], ◌∷◌,
  arith, leb, Result, ok,
}
use wintermute.Prelude.Str.{Str}
use wintermute.Prelude.Results.{Result-cases}
use wintermute.Tool.{Call, Handler}
use wintermute.Tool.Registry.{find_handler}
use wintermute.Llm.Message.{Message, Request}
use wintermute.Llm.Complete.{Routed}
use wintermute.Agent.Tools.{
  AuditEntry, partition, Streak, next_streak, run_server_tool, repeated_tool_failure_limit,
}
use wintermute.Agent.Turn.{
  Turn, TurnFault, Scene, Setting, After, ended, goes_on, new_turn, no_streak, request_of,
  write_result, refuse_unknown, serve, handle_calls, turn_round, turn_loop, advance, recorded,
  served_by, is_none,
}
use wintermute.Agent.Turn.Rounds.{After-cases}

module _ {T W : Type 0} (g : Setting T W) (count : W → ℕ) where
  -- `count` counts the completions that are asked for: one each, and none in a tool.
  pub record IsCounter : Type 0 where
    pub asked : (req : Request) (w : W) → count (g.ask req w).1 ≡ suc (count w)
    pub quiet :
        (name : Str) (h : Handler W)
        → find_handler g.registry name ≡ some h
        → (input : Str) (w : W) → count (h input w).1 ≡ count w

  module _ (counter : IsCounter) where
    run_server_tool-count :
        (c : Call) (w : W) (trail : List AuditEntry)
        → count (run_server_tool g.registry c.id c w trail).1 ≡ count w
    unfolding run_server_tool
    run_server_tool-count c w trail = elim (Option-cases (find_handler g.registry c.name)) [
      | inl n ↦ rw (n, run_server_tool) refl
      | inr h ↦ rw (h.1, run_server_tool) (counter.quiet c.name h.0 h.1 c.input w)
    ]

    serve-count :
        (t : Turn) (s : Streak) (cs : List Call) (st : Scene T W)
        → count (serve g t s cs st).1.world ≡ count st.world
    unfolding serve
    serve-count t s [] st = refl
    serve-count t s (c ∷ cs) st =
        let (res, w', trail') = run_server_tool g.registry c.id c st.world st.trail in
        let one = run_server_tool-count c st.world st.trail in
        elim (Result-cases (write_result g t res st.log)) [
          | inr f ↦ rw (f.1, serve) one
          | inl log ↦
              let next = next_streak c res s in
              let st' : Scene T W = record { log = log.0; world = w'; trail = trail' } in
              rw (log.1, serve)
                (if_intro
                  (λ (x : Result TurnFault Streak × Scene T W). count x.1.world ≡ count st.world)
                  (leb repeated_tool_failure_limit next.repeats) one
                  (serve-count t next cs st' ∙ one))
        ]

    handle_calls-count :
        (res : Routed) (t : Turn) (s : Streak) (st : Scene T W)
        → count (handle_calls g res t s st).1.world ≡ count st.world
    unfolding handle_calls
    handle_calls-count res t s st =
        let split = partition g.registry res.response.message.tool_calls in
        let refused = refuse_unknown g t split.unknown_calls st.log in
        let st' : Scene T W = record st { log = refused.1 } in
        let run = serve g t s split.server_calls st' in
        let same = serve-count t s split.server_calls st' in
        elim (Result-cases refused.0) [
          | inr f ↦ rw (f.1, handle_calls) refl
          | inl u ↦ elim (Result-cases run.0) [
            | inr f ↦ rw (u.1, f.1, handle_calls) same
            | inl s' ↦
                rw (u.1, s'.1, handle_calls)
                  (if_intro
                    (λ (x : Result TurnFault After × Scene T W). count x.1.world ≡ count st.world)
                    (is_none split.client_calls) same same)
          ]
        ]

    turn_round-count :
        (model : Str) (t : Turn) (s : Streak) (st : Scene T W)
        → count (turn_round g model t s st).1.world ≤ suc (count st.world)
    unfolding turn_round
    turn_round-count model t s st = elim (Result-cases (g.store.messages st.log)) [
      | inr f ↦ rw (f.1, turn_round) (omega arith)
      | inl h ↦
          let reply = g.ask (request_of g model h.0) st.world in
          let one = counter.asked (request_of g model h.0) st.world in
          let st' : Scene T W = record st { world = reply.1 } in
          elim (Result-cases reply.0) [
            | inr f ↦ rw (h.1, f.1, turn_round) (omega (arith, one))
            | inl res ↦ elim (Result-cases (g.store.append (recorded res.0 ∷ []) st.log)) [
              | inr f ↦ rw (h.1, res.1, f.1, turn_round) (omega (arith, one))
              | inl log ↦
                  let st'' : Scene T W = record st' { log = log.0 } in
                  let rest = handle_calls-count res.0 (served_by res.0 t) s st'' in
                  rw (h.1, res.1, log.1, turn_round)
                    (if_intro
                      (λ (x : Result TurnFault After × Scene T W).
                        count x.1.world ≤ suc (count st.world))
                      (is_none res.0.response.message.tool_calls) (omega (arith, one))
                      (omega (arith, one, rest)))
            ]
          ]
    ]

    turn_loop-count :
        (model : Str) (n : ℕ) (t : Turn) (s : Streak) (st : Scene T W)
        → count (turn_loop g model n t s st).1.world ≤ count st.world + n
    unfolding turn_loop
    turn_loop-count model zero t s st = omega arith
    turn_loop-count model (suc n) t s st =
        let round = turn_round g model t s st in
        let one = turn_round-count model t s st in
        elim (Result-cases round.0) [
          | inr f ↦ rw (f.1, turn_loop) (omega (arith, one))
          | inl a ↦ elim (After-cases a.0) [
            | inl e ↦
                let is : (round.0 ≡ ok (ended e.0)) = a.1 ∙ ap ok e.1 in
                rw (is, turn_loop) (omega (arith, one))
            | inr e ↦
                let is : (round.0 ≡ ok (goes_on e.0 e.1)) = a.1 ∙ ap ok e.2 in
                let rest = turn_loop-count model n e.0 e.1 round.1 in
                rw (is, turn_loop) (omega (arith, one, rest))
          ]
        ]

    -- However the model answers, a turn comes to its end, with a result or an error, after at most
    -- maxIterations completions, where a completion is counted once and the tools count none.
    pub advance-count :
        (model : Str) (n : ℕ) (incoming : List Message) (st : Scene T W)
        → count (advance g model n incoming st).1.world ≤ count st.world + n
    unfolding advance
    advance-count model n incoming st = elim (Result-cases (g.store.append incoming st.log)) [
      | inr f ↦ rw (f.1, advance) (omega arith)
      | inl log ↦
          rw (log.1, advance)
            (turn_loop-count model n new_turn no_streak (record st { log = log.0 }))
    ]
