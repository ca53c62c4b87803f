-- ===== src/Agent/Turn/Stored.antt =====
-- agent.go over transcript.go's storeTranscript: the store of sessions as the transcript of a turn.
use wintermute.Prelude.{ℕ, ◌≡◌, sym, ap, ◌∙◌, inl, inr, List, map, ◌++◌, arith, Result, ok, err}
use wintermute.Prelude.Str.{Str}
use wintermute.Prelude.Results.{ok_inj}
use wintermute.Tool.{Call}
use wintermute.Llm.Message.{Message}
use wintermute.Agent.Store.{Codec, Store, StoreError}
use wintermute.Agent.Store
use wintermute.Agent.Store.Rows.{IsCodec, stored_as, Appended, messages-append_messages}
use wintermute.Agent.Turn.{Log}
use wintermute.Agent.Turn.Exchange.{IsLog}

-- The text of an error takes the place of the error.
abbrev told {ℓ} : {A : Type ℓ} → (StoreError → Str) → Result StoreError A → Result Str A
told text (ok a) = ok a
told text (err e) = err (text e)

abbrev left_in : (StoreError → Str) → Result StoreError (List ℕ) × Store → Result Str Store
left_in text (ok ids, s) = ok s
left_in text (err e, s) = err (text e)

-- `storeTranscript` of one session.
abbrev pub stored_log : Codec → (StoreError → Str) → Str → Log Store
stored_log json text sid = record {
  append = λ ms s. left_in text (Store.append_messages json sid ms s);
  messages = λ s. told text (Store.messages json sid s);
}

told_ok :
    {A : Type 0} (text : StoreError → Str) (m : Result StoreError A) (a : A)
    → told text m ≡ ok a
    → m ≡ ok a
told_ok text (ok x) a h = ap ok (ok_inj h)
told_ok text (err e) a h = ground arith

module _ (json : Codec) (call : Call → Call) (block : Str → Str) (law : IsCodec json call block)
    (text : StoreError → Str) (sid : Str) where
  after_append :
      (ms h : List Message) (a b : Store) (x : Result StoreError (List ℕ) × Store)
      → Appended json call block law sid h ms a x
      → left_in text x ≡ ok b
      → told text (Store.messages json sid b) ≡ ok (h ++ map (stored_as call block) ms)
  after_append ms h a b (ok ids, s) (inl k) q =
      ap (λ y. told text (Store.messages json sid y)) (sym (ok_inj q)) ∙ ap (told text) k.2
  after_append ms h a b (ok ids, s) (inr k) q = ground (arith, k.1)
  after_append ms h a b (err e, s) k q = ground arith

  -- The store reads back what a turn appends, in the form of the encoding.
  pub stored_log-IsLog : IsLog (stored_log json text sid) (stored_as call block)
  stored_log-IsLog = record {
    appends = λ ms a b h w q.
        after_append ms h a b (Store.append_messages json sid ms a)
          (messages-append_messages json call block law sid ms a h
            (told_ok text (Store.messages json sid a) h q))
          w;
  }
