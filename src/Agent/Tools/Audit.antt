-- ===== src/Agent/Tools/Audit.antt =====
-- agent.go: the calls that a turn runs on the server all reach a handler, and each leaves an entry in the
-- audit trail.
use mathlib.Core.List.{append-nil, append_assoc}
use wintermute.Prelude.{
  ℕ, suc, not, ◌&&◌, ◌==◌, ==_refl, if◌then◌else◌, ◌≤◌, length, take, leb, leb→le, Bool-cases, ◌≡◌,
  ◌≢◌, refl, sym, ap, ◌∙◌, ◌⊎◌, inl, inr, Bool, true, false, Option, none, some, List, [], ◌∷◌,
  ◌++◌, map, All, arith,
}
use wintermute.Prelude.Str.{Str, codes, str_eq}
use wintermute.Prelude.Assoc.{lookup}
use wintermute.Tool.{
  Side, server, client, other_side, Definition, Call, ToolResult, Handler, Outcome, done, failed,
}
use wintermute.Tool.Registry.{Registry, find_definition, find_handler}
use wintermute.Tool.Registry.Laws.{IsRegistry}
use wintermute.Agent.Tools.{
  Split, Owner, owned_by_server, owned_by_client, unknown, owner_of, place, AuditEntry, owner_side,
  tool_result, risk_of, partition, Streak, ToolRun, next_streak, run_server_tool, run_server_tools,
}

not_client : (side : Side) → side ≡ client → owner_side side ≢ owned_by_server
not_client server q h = ground arith
not_client client q h = ground arith
not_client (other_side t) q h = ground arith

tool_result-id : (c : Call) (out : Outcome) → (tool_result c out).call_id ≡ c.id
tool_result-id c (done out) = refl
tool_result-id c (failed e) = refl

-- Whether a result is a failure of the text that names its tool and the failure.
abbrev is_failure : Str → Call × ToolResult → Bool
is_failure key (c, res) = res.is_error && (c.name ++ codes ": " ++ res.content == key)

-- How many of the newest results are the failure of a text, one behind the other.
unfoldable pub in_a_row : Str → List (Call × ToolResult) → ℕ
in_a_row key [] = 0
in_a_row key (x ∷ past) = let rest = in_a_row key past in if is_failure key x then suc rest else 0

-- Calls with their results behind those before them, the newest first.
unfoldable pub since :
    List Call → List ToolResult → List (Call × ToolResult) → List (Call × ToolResult)
since (c ∷ cs) (res ∷ rs) past = since cs rs ((c, res) ∷ past)
since _ _ past = past

-- The streak counts no more than what has come in a row.
abbrev pub IsCount : List (Call × ToolResult) → Streak → Type 0
IsCount past s = s.repeats ≤ in_a_row s.last_failure past

counted_failure :
    (key : Str) (x : Call × ToolResult) (past : List (Call × ToolResult))
    → is_failure key x ≡ true
    → in_a_row key (x ∷ past) ≡ suc (in_a_row key past)
unfolding in_a_row
counted_failure key x past h = rw h refl

next_streak-IsCount :
    (c : Call) (res : ToolResult) (s : Streak) (past : List (Call × ToolResult))
    → IsCount past s
    → IsCount ((c, res) ∷ past) (next_streak c res s)
unfolding next_streak
next_streak-IsCount c res s past h =
    let key = c.name ++ codes ": " ++ res.content in
    if_with (IsCount ((c, res) ∷ past)) (not res.is_error) (λ fine. omega arith)
      (λ bad.
        if_with (IsCount ((c, res) ∷ past)) (key == s.last_failure)
          (λ same. omega (
            arith,
            h,
            counted_failure s.last_failure (c, res) past (failed_with res.is_error _ bad same),
          ))
          (λ other. omega (
            arith,
            counted_failure key (c, res) past
                (failed_with res.is_error _ bad (==_refl ⦃e = str_eq⦄ key)),
          )))
  where
    failed_with : (a b : Bool) → not a ≡ false → b ≡ true → (a && b) ≡ true
    failed_with true b h k = k
    failed_with false b h k = ground arith

    if_with :
        (P : Streak → Type 0) (b : Bool) {x y : Streak}
        → (b ≡ true → P x)
        → (b ≡ false → P y)
        → P (if b then x else y)
    if_with P true h k = h refl
    if_with P false h k = k refl

-- The last three results are one failure.
pub record IsStuck (past : List (Call × ToolResult)) : Type 0 where
  pub key : Str
  pub thrice : 3 ≤ in_a_row key past

module _ {W : Type 0} (r : Registry W) where
  abbrev pub HasHandler : Call → Type 0
  HasHandler c = (h : Handler W) × (lookup c.name r.handlers ≡ some h)

  -- What the trail says of a call and of its result.
  abbrev pub entry_of : Call → ToolResult → AuditEntry
  entry_of c res = record {
    call_id = c.id;
    tool_name = c.name;
    risk = risk_of (find_definition r c.name);
    input = c.input;
    outcome = res.content;
    is_error = res.is_error;
  }

  -- The entries of some calls with their results.
  unfoldable pub entries_of : List Call → List ToolResult → List AuditEntry
  entries_of (c ∷ cs) (res ∷ rs) = entry_of c res ∷ entries_of cs rs
  entries_of _ _ = []

  entries_of-nil : (cs : List Call) → entries_of cs [] ≡ []
  unfolding entries_of
  entries_of-nil [] = refl
  entries_of-nil (c ∷ cs) = refl

  placed :
      (o : Owner) (c : Call) (s : Split)
      → (o ≡ owned_by_server → HasHandler c)
      → All HasHandler s.server_calls
      → All HasHandler (place o c s).server_calls
  unfolding place
  placed owned_by_server c s h a = (h refl, a)
  placed owned_by_client c s h a = a
  placed unknown c s h a = a

  owned :
      IsRegistry r
      → (c : Call) (o : Option Definition) → find_definition r c.name ≡ o
      → owner_of o ≡ owned_by_server
      → HasHandler c
  unfolding find_definition owner_of
  owned i c none q h = ground arith
  owned i c (some d) q h = elim (i.listed c.name d q).handled [
    | inl its ↦ absurd (not_client d.side its.0 h)
    | inr its ↦ its.1
  ]

  partition-HasHandler :
      IsRegistry r → (cs : List Call) → All HasHandler (partition r cs).server_calls
  unfolding partition
  partition-HasHandler i [] = tt
  partition-HasHandler i (c ∷ cs) =
      placed (owner_of (find_definition r c.name)) c (partition r cs)
        (owned i c (find_definition r c.name) refl) (partition-HasHandler i cs)

  run_server_tool-entry :
      (c : Call) (w : W) (trail : List AuditEntry)
      → HasHandler c
      → let (res, w', trail') = run_server_tool r c.id c w trail in
        (res.call_id ≡ c.id) × (trail' ≡ trail ++ entry_of c res ∷ [])
  unfolding run_server_tool find_handler
  run_server_tool-entry c w trail h =
      rw (h.1, run_server_tool) (tool_result-id c (h.0 c.input w).0, refl)

  -- Which of the calls a run has answered, and what it left in the trail, given the results before it.
  pub record IsAnswered (past : List (Call × ToolResult)) (calls : List Call)
      (before : List AuditEntry) (run : ToolRun W) : Type 0 where
    pub answered :
        map (λ (x : ToolResult). x.call_id) run.results
        ≡ take (length run.results) (map (λ (c : Call). c.id) calls)
    pub audited : run.trail ≡ before ++ entries_of calls run.results
    pub complete :
        ((run.stopped ≡ false) × (length run.results ≡ length calls))
        ⊎ ((run.stopped ≡ true) × IsStuck (since calls run.results past))

  run_server_tools_lem :
      (s : Streak) (past : List (Call × ToolResult)) (cs : List Call) (w : W)
      (trail : List AuditEntry)
      → All HasHandler cs
      → IsCount past s
      → IsAnswered past cs trail (run_server_tools r s cs w trail)
  unfolding run_server_tools entries_of since
  run_server_tools_lem s past [] w trail h k = record {
    answered = refl;
    audited = sym (append-nil trail);
    complete = inl (refl, refl);
  }
  run_server_tools_lem s past (c ∷ cs) w trail h k =
      let (res, w', trail') = run_server_tool r c.id c w trail in
      let s' = next_streak c res s in
      let run = run_server_tools r s' cs w' trail' in
      let one = run_server_tool-entry c w trail h.0 in
      let now = next_streak-IsCount c res s past k in
      let more = run_server_tools_lem s' ((c, res) ∷ past) cs w' trail' h.1 now in
      elim (Bool-cases (leb 3 s'.repeats)) [
        | inl stuck ↦
            rw (stuck, run_server_tools)
              (record {
                answered = ap (λ i. i ∷ []) one.0;
                audited = one.1 ∙ ap (λ t. trail ++ entry_of c res ∷ t) (sym (entries_of-nil cs));
                complete = inr (
                  refl,
                  record {
                    key = s'.last_failure;
                    thrice = stuck_in_a_row cs s' ((c, res) ∷ past) (leb→le 3 s'.repeats stuck) now;
                  },
                );
              })
        | inr going ↦
            rw (going, run_server_tools)
              (record {
                answered = ground (arith, one.0, more.answered);
                audited =
                    more.audited
                    ∙ ap (λ t. t ++ entries_of cs run.results) one.1
                    ∙ append_assoc trail (entry_of c res ∷ []) (entries_of cs run.results);
                complete =
                    one_more run.stopped (length run.results) (length cs)
                      (IsStuck (since cs run.results ((c, res) ∷ past))) more.complete;
              })
      ]
    where
      stuck_in_a_row :
          (cs : List Call) (s : Streak) (past : List (Call × ToolResult))
          → 3 ≤ s.repeats
          → IsCount past s
          → 3 ≤ in_a_row s.last_failure (since cs [] past)
      stuck_in_a_row [] s past h k = omega (arith, h, k)
      stuck_in_a_row (c ∷ cs) s past h k = omega (arith, h, k)

      one_more :
          (b : Bool) (m n : ℕ) (P : Type 0)
          → ((b ≡ false) × (m ≡ n)) ⊎ ((b ≡ true) × P)
          → ((b ≡ false) × (suc m ≡ suc n)) ⊎ ((b ≡ true) × P)
      one_more b m n P (inl x) = inl (x.0, ap suc x.1)
      one_more b m n P (inr x) = inr x

  pub run_server_tools-IsAnswered :
      (s : Streak) (past : List (Call × ToolResult)) (cs : List Call) (w : W)
      (trail : List AuditEntry)
      → IsRegistry r
      → IsCount past s
      → IsAnswered past
          (partition r cs).server_calls
          trail
          (run_server_tools r s (partition r cs).server_calls w trail)
  run_server_tools-IsAnswered s past cs w trail i k =
      run_server_tools_lem s past (partition r cs).server_calls w trail (partition-HasHandler i cs)
        k
