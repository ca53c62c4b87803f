-- ===== src/Agent/Turn/Rounds.antt =====
-- agent.go Advance: each round of the loop writes the model's message and the results of its calls, and so
-- a turn that ends leaves a well-formed exchange behind what the transcript held.
use mathlib.Core.List.{append_assoc, map-append}
use wintermute.Prelude.{
  ℕ, zero, suc, ◌≡◌, ◌≢◌, refl, sym, ap, subst, ◌∙◌, ◌⊎◌, inl, inr, true, false, Bool-cases, List,
  [], ◌∷◌, ◌++◌, map, All-append, arith, ok,
}
use wintermute.Prelude.Str.{Str}
use wintermute.Prelude.Results.{ok_inj, Result-cases}
use wintermute.Tool.{Call}
use wintermute.Tool.Registry.{Registry}
use wintermute.Llm.Message.{Message}
use wintermute.Llm.Complete.{Routed}
use wintermute.Agent.Tools.{Split, partition, Streak}
use wintermute.Agent.Turn.{
  Turn, Scene, Setting, After, ended, goes_on, new_turn, no_streak, request_of, refuse_unknown,
  serve, handle_calls, turn_round, turn_loop, advance, recorded, served_by, is_none, describe,
}
use wintermute.Agent.Turn.Exchange.{
  those, for_client, for_server, for_none, split_is, IsLog, AnswersAll, Answers, no_rounds,
  next_round, IsExchange, not_ok, refuse_unknown-Wrote, serve-Wrote,
}

none_of : (cs : List Call) → is_none cs ≡ true → cs ≡ []
none_of [] h = refl
none_of (c ∷ cs) h = ground arith

some_of : (cs : List Call) → is_none cs ≡ false → cs ≢ []
some_of [] h q = ground arith
some_of (c ∷ cs) h q = ground arith

no_answers :
    {W : Type 0} (r : Registry W) (cs : List Call)
    → cs ≡ []
    → AnswersAll (for_none r cs ++ for_server r cs) []
unfolding those
no_answers r cs e =
    subst (λ (x : List Call). AnswersAll (for_none r x ++ for_server r x) []) (sym e) (refl, tt)

pub After-cases :
    (a : After) → ((t : Turn) × (a ≡ ended t)) ⊎ ((t : Turn) × (s : Streak) × (a ≡ goes_on t s))
After-cases (ended t) = inl (t, refl)
After-cases (goes_on t s) = inr (t, s, refl)

module _ {T W : Type 0} (g : Setting T W) (form : Message → Message)
    (law : IsLog g.store form) where
  -- What a round has come to.
  Rounded : List Message → After → T → Type 0
  Rounded h (ended t) log = IsExchange g form h t log
  Rounded h (goes_on t s) log =
      (m : Message) × (rs : List Message) × (g.store.messages log ≡ ok (h ++ map form (m ∷ rs)))
      × (for_client g.registry m.tool_calls ≡ [])
      × Answers g.registry m rs

  both :
      (cs ds : List Call) (rs qs : List Message)
      → AnswersAll cs rs
      → AnswersAll ds qs
      → AnswersAll (cs ++ ds) (rs ++ qs)
  both cs ds rs qs h k = (
    map-append (λ (m : Message). m.tool_call_id) rs qs
        ∙ ap (λ x. x ++ map (λ (m : Message). m.tool_call_id) qs) h.0
        ∙ ap (λ x. map (λ (c : Call). c.id) cs ++ x) k.0
        ∙ sym (map-append (λ (c : Call). c.id) cs ds),
    All-append _ rs qs h.1 k.1,
  )

  handle_calls-Rounded :
      (res : Routed) (t : Turn) (s : Streak) (st : Scene T W) (h : List Message)
      → g.store.messages st.log ≡ ok (h ++ (form (recorded res) ∷ []))
      → (a : After) → (handle_calls g res t s st).0 ≡ ok a
      → Rounded h a (handle_calls g res t s st).1.log
  unfolding handle_calls recorded Rounded
  handle_calls-Rounded res t s st h q =
      let split = partition g.registry res.response.message.tool_calls in
      let refused = refuse_unknown g t split.unknown_calls st.log in
      let st' : Scene T W = record st { log = refused.1 } in
      let run = serve g t s split.server_calls st' in
      elim (Result-cases refused.0) [
        | inr f ↦ rw (f.1, handle_calls) (λ a k. absurd (not_ok _ k))
        | inl u ↦
            let told = refuse_unknown-Wrote g form law t split.unknown_calls st.log _ q u.1 in
            elim (Result-cases run.0) [
              | inr f ↦ rw (u.1, f.1, handle_calls) (λ a k. absurd (not_ok _ k))
              | inl s' ↦
                  let done = serve-Wrote g form law t s split.server_calls st' _ told.1 s'.0 s'.1 in
                  let m = recorded res in
                  let rs = told.0 ++ done.0 in
                  let is = split_is g.registry res.response.message.tool_calls in
                  let answered =
                    subst (λ (x : Split). AnswersAll (x.unknown_calls ++ x.server_calls) rs) is
                      (both split.unknown_calls split.server_calls told.0 done.0 told.2 done.2) in
                  let whole =
                    done.1
                    ∙ ap ok (
                        append_assoc (h ++ (form m ∷ [])) (map form told.0) (map form done.0)
                        ∙ append_assoc h (form m ∷ []) (map form told.0 ++ map form done.0)
                        ∙ ap (λ z. h ++ (form m ∷ z)) (sym (map-append form told.0 done.0))) in
                  elim (Bool-cases (is_none split.client_calls)) [
                    | inl n ↦
                        rw (u.1, s'.1, n, handle_calls)
                          (λ a k.
                            subst (λ (x : After). Rounded h x run.1.log) (ok_inj k)
                              (
                                m,
                                rs,
                                whole,
                                subst (λ (x : Split). x.client_calls ≡ []) is
                                    (none_of split.client_calls n),
                                answered,
                              ))
                    | inr c ↦
                        rw (u.1, s'.1, c, handle_calls)
                          (λ a k.
                            subst (λ (x : After). Rounded h x run.1.log) (ok_inj k)
                              (record {
                                rounds = [];
                                last = m;
                                results = rs;
                                whole = whole;
                                over = no_rounds;
                                answered = answered;
                                replied = refl;
                                outcome = inr (
                                  refl,
                                  ap (λ (x : Split). describe g.registry x.client_calls) is,
                                  subst (λ (x : Split). x.client_calls ≢ []) is
                                      (some_of split.client_calls c),
                                );
                              }))
                  ]
            ]
      ]

  turn_round-Rounded :
      (model : Str) (t : Turn) (s : Streak) (st : Scene T W) (h : List Message)
      → g.store.messages st.log ≡ ok h
      → (a : After) → (turn_round g model t s st).0 ≡ ok a
      → Rounded h a (turn_round g model t s st).1.log
  unfolding turn_round recorded Rounded
  turn_round-Rounded model t s st h q =
      let reply = g.ask (request_of g model h) st.world in
      let st' : Scene T W = record st { world = reply.1 } in
      elim (Result-cases reply.0) [
        | inr f ↦ rw (q, f.1, turn_round) (λ a k. absurd (not_ok _ k))
        | inl res ↦ elim (Result-cases (g.store.append (recorded res.0 ∷ []) st.log)) [
          | inr f ↦ rw (q, res.1, f.1, turn_round) (λ a k. absurd (not_ok _ k))
          | inl log ↦
              let now = law.appends (recorded res.0 ∷ []) st.log log.0 h log.1 q in
              let st'' : Scene T W = record st' { log = log.0 } in
              let t' = served_by res.0 t in
              elim (Bool-cases (is_none res.0.response.message.tool_calls)) [
                | inl n ↦
                    rw (q, res.1, log.1, n, turn_round)
                      (λ a k.
                        subst (λ (x : After). Rounded h x log.0) (ok_inj k)
                          (record {
                            rounds = [];
                            last = recorded res.0;
                            results = [];
                            whole = now;
                            over = no_rounds;
                            answered =
                                no_answers g.registry _
                                  (none_of res.0.response.message.tool_calls n);
                            replied = refl;
                            outcome = inl (refl, none_of res.0.response.message.tool_calls n);
                          }))
                | inr c ↦
                    rw (q, res.1, log.1, c, turn_round) (handle_calls-Rounded res.0 t' s st'' h now)
              ]
        ]
      ]

  later :
      (h : List Message) (m : Message) (rs : List Message) (t : Turn) (log : T)
      → for_client g.registry m.tool_calls ≡ []
      → Answers g.registry m rs
      → IsExchange g form (h ++ map form (m ∷ rs)) t log
      → IsExchange g form h t log
  later h m rs t log n a x = record {
    rounds = m ∷ rs ++ x.rounds;
    last = x.last;
    results = x.results;
    whole =
        x.whole
        ∙ ap ok (
            append_assoc h (map form (m ∷ rs)) (map form (x.rounds ++ (x.last ∷ x.results)))
            ∙ ap (λ z. h ++ z)
                (sym (map-append form (m ∷ rs) (x.rounds ++ (x.last ∷ x.results)))
                  ∙ ap (map form) (sym (append_assoc (m ∷ rs) x.rounds (x.last ∷ x.results)))));
    over = next_round m rs x.rounds n a x.over;
    answered = x.answered;
    replied = x.replied;
    outcome = x.outcome;
  }

  turn_loop-IsExchange :
      (model : Str) (n : ℕ) (t : Turn) (s : Streak) (st : Scene T W) (h : List Message)
      → g.store.messages st.log ≡ ok h
      → (t' : Turn) → (turn_loop g model n t s st).0 ≡ ok t'
      → IsExchange g form h t' (turn_loop g model n t s st).1.log
  unfolding turn_loop Rounded
  turn_loop-IsExchange model zero t s st h q = λ t' k. absurd (not_ok _ k)
  turn_loop-IsExchange model (suc n) t s st h q =
      let round = turn_round g model t s st in
      let done = turn_round-Rounded model t s st h q in
      elim (Result-cases round.0) [
        | inr f ↦ rw (f.1, turn_loop) (λ t' k. absurd (not_ok _ k))
        | inl a ↦ elim (After-cases a.0) [
          | inl e ↦
              let is : (round.0 ≡ ok (ended e.0)) = a.1 ∙ ap ok e.1 in
              rw (is, turn_loop)
                (λ t' k.
                  subst (λ (x : Turn). IsExchange g form h x round.1.log) (ok_inj k)
                    (done (ended e.0) is))
          | inr e ↦
              let is : (round.0 ≡ ok (goes_on e.0 e.1)) = a.1 ∙ ap ok e.2 in
              let (m, rs, now, none_left, answered) = done (goes_on e.0 e.1) is in
              rw (is, turn_loop)
                (λ t' k.
                  later h m rs t' _ none_left answered (
                    turn_loop-IsExchange model n e.0 e.1 round.1 (h ++ map form (m ∷ rs)) now t' k))
        ]
      ]

  advance_lem :
      (model : Str) (n : ℕ) (incoming : List Message) (st : Scene T W) (h : List Message)
      → g.store.messages st.log ≡ ok h
      → (t : Turn) → (advance g model n incoming st).0 ≡ ok t
      → IsExchange g form (h ++ map form incoming) t (advance g model n incoming st).1.log
  unfolding advance
  advance_lem model n incoming st h q = elim (Result-cases (g.store.append incoming st.log)) [
    | inr f ↦ rw (f.1, advance) (λ t k. absurd (not_ok _ k))
    | inl log ↦
        rw (log.1, advance)
          (turn_loop-IsExchange model n new_turn no_streak (record st { log = log.0 })
            (h ++ map form incoming) (law.appends incoming st.log log.0 h log.1 q))
  ]

  pub advance-IsExchange :
      (model : Str) (n : ℕ) (incoming : List Message) (st : Scene T W) (h : List Message) (t : Turn)
      → g.store.messages st.log ≡ ok h
      → (advance g model n incoming st).0 ≡ ok t
      → IsExchange g form (h ++ map form incoming) t (advance g model n incoming st).1.log
  advance-IsExchange model n incoming st h t q k = advance_lem model n incoming st h q t k
