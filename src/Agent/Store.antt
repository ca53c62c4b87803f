-- ===== src/Agent/Store.antt =====
-- internal/store/sessions.go: the rows of the `messages` table and the memory switches of a session.
-- A statement does what SQLite documents, and a transaction is one step; a failing disk and the times of
-- the rows are left out. Marshal and Unmarshal of encoding/json, at the two types of lists that are stored
-- as text, are a parameter; they may fail.
pub mod Rows
pub mod Erased
use wintermute.Prelude.{
  ℕ, suc, ◌+◌, Bool, true, false, not, ◌&&◌, Option, none, some, List, [], ◌∷◌, ◌++◌, map, Result,
  ok, err, ltb, nat_beq, ◌==◌, if◌then◌else◌, ◌>>=◌,
}
use wintermute.Prelude.Str.{Str, str_eq}
use wintermute.Prelude.Assoc.{Assoc, lookup, insert}
use wintermute.Tool.{Call}
use wintermute.Llm.Message.{Role, Message}

-- `json.Marshal` and `json.Unmarshal` on the tool calls and on the thinking blocks of a message.
pub record Codec : Type 0 where
  pub encode_calls : List Call → Result Str Str
  pub decode_calls : Str → Result Str (List Call)
  pub encode_thinking : List Str → Result Str Str
  pub decode_thinking : Str → Result Str (List Str)

-- `ErrNotFound`, and the errors of the encoding.
pub data StoreError : Type 0 where
  not_found : StoreError
  encode_calls_failed encode_thinking_failed : Str → StoreError
  decode_calls_failed decode_thinking_failed : Str → StoreError

pub record Row : Type 0 where
  pub id : ℕ
  pub session_id : Str
  pub seq : ℕ
  pub role : Role
  pub content : Str
  pub tool_calls : Str
  pub tool_call_id : Str
  pub is_error : Bool
  pub thinking : Str
  pub backend : Str
  pub model : Str
  pub token_count : ℕ

abbrev pub or_failed {ℓ} : {A : Type ℓ} → (Str → StoreError) → Result Str A → Result StoreError A
or_failed fault (ok a) = ok a
or_failed fault (err e) = err (fault e)

-- An empty list is stored as the empty text, and an empty text is read as no list.
abbrev pub encode_list {ℓ} :
    {A : Type ℓ} → (List A → Result Str Str) → (Str → StoreError) → List A → Result StoreError Str
encode_list encode fault [] = ok []
encode_list encode fault (x ∷ xs) = or_failed fault (encode (x ∷ xs))

abbrev pub decode_list {ℓ} :
    {A : Type ℓ}
    → (Str → Result Str (List A))
    → (Str → StoreError)
    → Str
    → Result StoreError (List A)
decode_list decode fault [] = ok []
decode_list decode fault (c ∷ cs) = or_failed fault (decode (c ∷ cs))

-- The columns of `sessions` that the switches touch.
pub record SessionRow : Type 0 where
  pub client_id : ℕ
  pub recorded : Bool
  pub recall : Bool

pub record Store : Type 0 where
  pub rows : List Row
  pub next_id : ℕ
  pub sessions : Assoc Str SessionRow

-- WHERE session_id = ?
unfoldable pub of_session : Str → List Row → List Row
of_session sid [] = []
of_session sid (r ∷ rs) =
    let rest = of_session sid rs in if r.session_id == sid then r ∷ rest else rest

max_from : ℕ → ℕ → ℕ
max_from a b = if ltb a b then b else a

-- COALESCE(MAX(seq), 0)
unfoldable pub max_seq : List Row → ℕ
unfolding max_from
max_seq [] = 0
max_seq (r ∷ rs) = max_from r.seq (max_seq rs)

abbrev pub row_of : Str → ℕ → ℕ → Message → Str → Str → Row
row_of sid seq id m calls thinking = record {
  id = id;
  session_id = sid;
  seq = seq + 1;
  role = m.role;
  content = m.content;
  tool_calls = calls;
  tool_call_id = m.tool_call_id;
  is_error = m.is_error;
  thinking = thinking;
  backend = m.backend;
  model = m.model;
  token_count = m.token_count;
}

-- The row of one message: the sequence number goes up before it.
unfoldable pub new_row : Codec → Str → ℕ → ℕ → Message → Result StoreError Row
new_row json sid seq id m =
    encode_list json.encode_calls encode_calls_failed m.tool_calls >>= λ (calls : Str).
    encode_list json.encode_thinking encode_thinking_failed m.thinking >>= λ (thinking : Str).
    ok (row_of sid seq id m calls thinking)

-- The loop that inserts the messages.
unfoldable pub new_rows : Codec → Str → ℕ → ℕ → List Message → Result StoreError (List Row)
new_rows json sid seq id [] = ok []
new_rows json sid seq id (m ∷ ms) = new_row json sid seq id m >>= λ (r : Row).
    new_rows json sid (seq + 1) (id + 1) ms >>= λ (rs : List Row). ok (r ∷ rs)

abbrev pub count : List Row → ℕ
count [] = 0
count (r ∷ rs) = suc (count rs)

-- The commit of the new rows, with their ids, or the rollback.
abbrev pub inserted : Store → Result StoreError (List Row) → Result StoreError (List ℕ) × Store
inserted s (ok added) = (
  ok (map (λ r. r.id) added),
  record s { rows = s.rows ++ added; next_id = s.next_id + count added },
)
inserted s (err e) = (err e, s)

-- `Store.AppendMessages`
unfoldable pub append_messages :
    Codec → Str → List Message → Store → Result StoreError (List ℕ) × Store
append_messages json sid [] s = (ok [], s)
append_messages json sid (m ∷ ms) s =
    inserted s (new_rows json sid (max_seq (of_session sid s.rows)) s.next_id (m ∷ ms))

insert_row : Row → List Row → List Row
insert_row r [] = r ∷ []
insert_row r (t ∷ ts) = if ltb t.seq r.seq then t ∷ insert_row r ts else r ∷ t ∷ ts

-- ORDER BY seq
unfoldable pub by_seq : List Row → List Row
unfolding insert_row
by_seq [] = []
by_seq (r ∷ rs) = insert_row r (by_seq rs)

abbrev pub message_of : Row → List Call → List Str → Message
message_of r calls thinking = record {
  role = r.role;
  content = r.content;
  tool_calls = calls;
  tool_call_id = r.tool_call_id;
  is_error = r.is_error;
  thinking = thinking;
  backend = r.backend;
  model = r.model;
  token_count = r.token_count;
}

unfoldable pub read_row : Codec → Row → Result StoreError Message
read_row json r =
    decode_list json.decode_calls decode_calls_failed r.tool_calls >>= λ (calls : List Call).
    decode_list json.decode_thinking decode_thinking_failed r.thinking >>= λ (thinking : List Str).
    ok (message_of r calls thinking)

-- The loop over the rows that the query returns.
unfoldable pub read_rows : Codec → List Row → Result StoreError (List Message)
read_rows json [] = ok []
read_rows json (r ∷ rs) =
    read_row json r >>= λ (m : Message). read_rows json rs >>= λ (ms : List Message). ok (m ∷ ms)

-- `Store.Messages`
unfoldable pub messages : Codec → Str → Store → Result StoreError (List Message)
messages json sid s = read_rows json (by_seq (of_session sid s.rows))

-- DELETE FROM messages WHERE session_id = ?
unfoldable pub without_session : Str → List Row → List Row
without_session sid [] = []
without_session sid (r ∷ rs) =
    let rest = without_session sid rs in if r.session_id == sid then rest else r ∷ rest

owned : ℕ → Option SessionRow → Bool
owned client_id none = false
owned client_id (some row) = nat_beq row.client_id client_id

-- `Store.SetSessionMemory`: going off the record deletes the session's messages in the same step.
unfoldable pub set_session_memory :
    Str → ℕ → Bool → Bool → Store → Result StoreError (Unit {0}) × Store
unfolding owned
set_session_memory sid client_id recorded recall s =
    if owned client_id (lookup sid s.sessions)
    then (
      ok tt,
      record s {
        sessions =
            insert sid (record { client_id = client_id; recorded = recorded; recall = recall })
              s.sessions;
        rows = if recorded then s.rows else without_session sid s.rows;
      },
    )
    else (err not_found, s)
