-- ===== src/Agent/Store/Rows.antt =====
-- sessions.go: what is appended is read back at the end.
use mathlib.Core.List.{append-nil}
use wintermute.Prelude.{
  ℕ, subst, Result, ◌>>=◌, if◌then◌else◌, ◌+◌, ◌≤◌, ◌<◌, ◌≡◌, ◌≢◌, refl, ap, sym, ◌∙◌, inl, inr,
  List, [], ◌∷◌, ◌++◌, map, All, All-imp, ltb, ok, err, ◌⊎◌, ◌==◌, arith, Bool-cases, if_intro,
  ==_refl,
}
use wintermute.Prelude.Str.{Str, str_eq}
use wintermute.Prelude.Results.{bind-ok, ok_inj, Result-cases}
use wintermute.Tool.{Call}
use wintermute.Llm.Message.{Message}
use wintermute.Agent.Store.{
  Codec, Row, StoreError, encode_calls_failed, encode_thinking_failed, decode_calls_failed,
  decode_thinking_failed, or_failed, encode_list, decode_list, new_row, read_row, read_rows,
  inserted, Store, of_session, max_seq, max_from, new_rows, append_messages, insert_row, by_seq,
  messages,
}

of_session-append :
    (sid : Str) (xs ys : List Row)
    → of_session sid (xs ++ ys) ≡ of_session sid xs ++ of_session sid ys
unfolding of_session
of_session-append sid [] ys = refl
of_session-append sid (r ∷ xs) ys = elim (Bool-cases (r.session_id == sid)) [
  | inl same ↦ rw (same, of_session-append sid xs ys)
  | inr other ↦ rw (other, of_session-append sid xs ys)
]

max_seq-le : (rs : List Row) → All (λ r. r.seq ≤ max_seq rs) rs
unfolding max_seq
max_seq-le [] = tt
max_seq-le (r ∷ rs) = (
  ground arith,
  All-imp (λ t. t.seq ≤ max_seq rs) (λ t. t.seq ≤ max_from r.seq (max_seq rs)) (λ t h. ground arith)
      rs (max_seq-le rs),
)

-- A row that stands behind all others goes to the end.
insert_row-last :
    (r : Row) (xs ys : List Row)
    → All (λ t. r.seq < t.seq) ys
    → insert_row r (xs ++ ys) ≡ insert_row r xs ++ ys
unfolding insert_row
insert_row-last r [] [] h = refl
insert_row-last r [] (t ∷ ys) h = ground arith
insert_row-last r (x ∷ xs) ys h = ground (arith, insert_row-last r xs ys h)

insert_row-All :
    (P : Row → Type 0) (r : Row) (rs : List Row) → P r → All P rs → All P (insert_row r rs)
unfolding insert_row
insert_row-All P r [] p h = (p, tt)
insert_row-All P r (t ∷ rs) p h =
    if_intro (All P) (ltb t.seq r.seq) (h.0, insert_row-All P r rs p h.1) (p, h)

by_seq-All : (P : Row → Type 0) (rs : List Row) → All P rs → All P (by_seq rs)
unfolding by_seq
by_seq-All P [] h = tt
by_seq-All P (r ∷ rs) h = insert_row-All P r (by_seq rs) h.0 (by_seq-All P rs h.1)

by_seq-append :
    (xs ys : List Row)
    → All (λ r. All (λ t. r.seq < t.seq) ys) xs
    → by_seq (xs ++ ys) ≡ by_seq xs ++ by_seq ys
unfolding by_seq
by_seq-append [] ys h = refl
by_seq-append (x ∷ xs) ys h =
    ap (insert_row x) (by_seq-append xs ys h.1)
    ∙ insert_row-last x (by_seq xs) (by_seq ys) (by_seq-All (λ t. x.seq < t.seq) ys h.0)

-- What `Unmarshal` reads from the text that `Marshal` has written: the text is not empty, and it is read as the
-- list with each entry in the form that the encoding gives it.
pub record IsCodec (json : Codec) (call : Call → Call) (block : Str → Str) : Type 0 where
  pub calls :
      (cs : List Call) (t : Str)
      → json.encode_calls cs ≡ ok t
      → (t ≢ []) × (json.decode_calls t ≡ ok (map call cs))
  pub thinking :
      (bs : List Str) (t : Str)
      → json.encode_thinking bs ≡ ok t
      → (t ≢ []) × (json.decode_thinking t ≡ ok (map block bs))

-- A message as it comes back: its tool calls and thinking blocks in the form of the encoding.
abbrev pub stored_as : (Call → Call) → (Str → Str) → Message → Message
stored_as call block m = record m {
  tool_calls = map call m.tool_calls;
  thinking = map block m.thinking;
}

failed_of :
    {A : Type 0} (fault : Str → StoreError) (m : Result Str A) (a : A)
    → or_failed fault m ≡ ok a
    → m ≡ ok a
failed_of fault (ok x) a h = ap ok (ok_inj h)
failed_of fault (err e) a h = ground arith

decoded :
    {A : Type 0} (decode : Str → Result Str (List A)) (fault : Str → StoreError) (t : Str)
    (xs : List A)
    → t ≢ []
    → decode t ≡ ok xs
    → decode_list decode fault t ≡ ok xs
decoded decode fault [] xs n h = absurd (n refl)
decoded decode fault (c ∷ cs) xs n h = ap (or_failed fault) h

list_back :
    {A : Type 0} (encode : List A → Result Str Str) (decode : Str → Result Str (List A))
    (f g : Str → StoreError) (form : A → A)
    → ((xs : List A) (t : Str) → encode xs ≡ ok t → (t ≢ []) × (decode t ≡ ok (map form xs)))
    → (xs : List A) (t : Str) → encode_list encode f xs ≡ ok t
    → decode_list decode g t ≡ ok (map form xs)
list_back encode decode f g form law [] t h =
    subst (λ (x : Str). decode_list decode g x ≡ ok []) (ok_inj h) refl
list_back encode decode f g form law (x ∷ xs) t h =
    let (n, back) = law (x ∷ xs) t (failed_of f (encode (x ∷ xs)) t h) in
    decoded decode g t (map form (x ∷ xs)) n back

bind_to :
    {A B : Type 0} (m : Result StoreError A) (f : A → Result StoreError B) (a : A)
    → m ≡ ok a
    → (m >>= f) ≡ f a
bind_to m f a h = ap (λ x. x >>= f) h

-- What is said of a row that a message was written to.
record IsNewRow (json : Codec) (sid : Str) (seq : ℕ) (m : Message) (r : Row) : Type 0 where
  its_session : r.session_id ≡ sid
  its_seq : r.seq ≡ seq + 1
  reads : read_row json r ≡ ok m

record AreNewRows (json : Codec) (sid : Str) (seq : ℕ) (ms : List Message) (rs : List Row)
    : Type 0 where
  ours : of_session sid rs ≡ rs
  above : All (λ t. seq < t.seq) rs
  in_order : by_seq rs ≡ rs
  reads : read_rows json rs ≡ ok ms

cons_AreNewRows :
    (json : Codec) (sid : Str) (seq : ℕ) (m : Message) (ms : List Message) (r : Row) (rs : List Row)
    → IsNewRow json sid seq m r
    → AreNewRows json sid (seq + 1) ms rs
    → AreNewRows json sid seq (m ∷ ms) (r ∷ rs)
unfolding of_session by_seq read_rows
cons_AreNewRows json sid seq m ms r rs one more = record {
  ours =
      ap (λ c. if c then r ∷ of_session sid rs else of_session sid rs)
        (ap (λ x. x == sid) one.its_session ∙ ==_refl ⦃e = str_eq⦄ sid)
      ∙ ap (λ x. r ∷ x) more.ours;
  above = (omega (arith, one.its_seq), All-imp _ _ (λ t h. omega (arith, h)) rs more.above);
  in_order =
      ap (insert_row r) more.in_order
      ∙ insert_row-last r [] rs (All-imp _ _ (λ t h. omega (arith, one.its_seq, h)) rs more.above);
  reads = bind_to (read_row json r) _ m one.reads ∙ bind_to (read_rows json rs) _ ms more.reads;
}

read_rows-append :
    (json : Codec) (xs ys : List Row) (a b : List Message)
    → read_rows json xs ≡ ok a
    → read_rows json ys ≡ ok b
    → read_rows json (xs ++ ys) ≡ ok (a ++ b)
unfolding read_rows
read_rows-append json [] ys a b h k = k ∙ ap (λ x. ok (x ++ b)) (ok_inj h)
read_rows-append json (r ∷ xs) ys a b h k =
    let one = bind-ok (read_row json r) _ a h in
    let rest = bind-ok (read_rows json xs) _ a one.2 in
    bind_to (read_row json r) _ one.0 one.1
    ∙ bind_to (read_rows json (xs ++ ys)) _ (rest.0 ++ b)
        (read_rows-append json xs ys rest.0 b rest.1 k)
    ∙ ap (λ x. ok (x ++ b)) (ok_inj rest.2)

module _ (json : Codec) (call : Call → Call) (block : Str → Str)
    (law : IsCodec json call block) where
  new_row-IsNewRow :
      (sid : Str) (seq id : ℕ) (m : Message) (r : Row)
      → new_row json sid seq id m ≡ ok r
      → IsNewRow json sid seq (stored_as call block m) r
  unfolding new_row read_row
  new_row-IsNewRow sid seq id m r h =
      let calls = bind-ok (encode_list json.encode_calls encode_calls_failed m.tool_calls) _ r h in
      let thinking =
        bind-ok (encode_list json.encode_thinking encode_thinking_failed m.thinking) _ r calls.2 in
      subst (IsNewRow json sid seq (stored_as call block m)) (ok_inj thinking.2) (record {
        its_session = refl;
        its_seq = refl;
        reads =
            bind_to (decode_list json.decode_calls decode_calls_failed calls.0) _
              (map call m.tool_calls)
              (list_back json.encode_calls json.decode_calls _ _ call law.calls m.tool_calls calls.0
                calls.1)
            ∙ bind_to (decode_list json.decode_thinking decode_thinking_failed thinking.0) _
                (map block m.thinking)
                (list_back json.encode_thinking json.decode_thinking _ _ block law.thinking
                  m.thinking thinking.0 thinking.1);
      })

  new_rows-AreNewRows :
      (sid : Str) (seq id : ℕ) (ms : List Message) (rs : List Row)
      → new_rows json sid seq id ms ≡ ok rs
      → AreNewRows json sid seq (map (stored_as call block) ms) rs
  unfolding new_rows of_session by_seq read_rows
  new_rows-AreNewRows sid seq id [] rs h =
      subst (AreNewRows json sid seq []) (ok_inj h)
        (record { ours = refl; above = tt; in_order = refl; reads = refl })
  new_rows-AreNewRows sid seq id (m ∷ ms) rs h =
      let one = bind-ok (new_row json sid seq id m) _ rs h in
      let rest = bind-ok (new_rows json sid (seq + 1) (id + 1) ms) _ rs one.2 in
      subst (AreNewRows json sid seq (map (stored_as call block) (m ∷ ms))) (ok_inj rest.2) (
        cons_AreNewRows json sid seq _ _ one.0 rest.0 (new_row-IsNewRow sid seq id m one.0 one.1)
          (new_rows-AreNewRows sid (seq + 1) (id + 1) ms rest.0 rest.1))

  -- What an append has come to: the transcript is what it was, and then the new messages, or the encoding has
  -- failed and nothing is written.
  abbrev pub Appended :
      Str → List Message → List Message → Store → Result StoreError (List ℕ) × Store → Type 0
  Appended sid old ms s x =
      ((ids : List ℕ) × (x.0 ≡ ok ids)
        × (messages json sid x.1 ≡ ok (old ++ map (stored_as call block) ms)))
      ⊎ ((e : StoreError) × (x.0 ≡ err e) × (x.1 ≡ s))

  pub messages-append_messages :
      (sid : Str) (ms : List Message) (s : Store) (old : List Message)
      → messages json sid s ≡ ok old
      → Appended sid old ms s (append_messages json sid ms s)
  unfolding messages append_messages
  messages-append_messages sid [] s old h = inl ([], refl, h ∙ ap ok (sym (append-nil old)))
  messages-append_messages sid (m ∷ ms) s old h =
      let before = of_session sid s.rows in
      elim (Result-cases (new_rows json sid (max_seq before) s.next_id (m ∷ ms))) [
        | inr e ↦
            subst (λ x. Appended sid old (m ∷ ms) s (inserted s x)) (sym e.1)
              (inr (e.0, refl, refl))
        | inl a ↦
            let new = new_rows-AreNewRows sid (max_seq before) s.next_id (m ∷ ms) a.0 a.1 in
            let later : All (λ r. All (λ t. r.seq < t.seq) a.0) before =
              All-imp (λ r. r.seq ≤ max_seq before) (λ r. All (λ t. r.seq < t.seq) a.0)
                (λ r k. All-imp _ _ (λ t j. omega (arith, k, j)) a.0 new.above) before
                (max_seq-le before) in
            subst (λ x. Appended sid old (m ∷ ms) s (inserted s x)) (sym a.1)
              (inl (
                map (λ r. r.id) a.0,
                refl,
                ap (λ rs. read_rows json (by_seq rs))
                      (of_session-append sid s.rows a.0 ∙ ap (λ rs. before ++ rs) new.ours)
                    ∙ ap (read_rows json) (
                        by_seq-append before a.0 later
                        ∙ ap (λ rs. by_seq before ++ rs) new.in_order)
                    ∙ read_rows-append json (by_seq before) a.0 old _ h new.reads,
              ))
      ]
