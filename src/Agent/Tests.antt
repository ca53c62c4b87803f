-- ===== src/Agent/Tests.antt =====
-- internal/agent and internal/store: the theorems at work on a pool that holds one conversation and a
-- store that holds the first message of another.
use wintermute.Prelude.{
  ℕ, map, ap, subst, Result, false, ◌≡◌, ◌≢◌, refl, true, false, some, List, [], ◌∷◌, ◌++◌, arith,
  ne_of_beq, ok, err,
}
use wintermute.Prelude.Str.{Str, codes, str_eq, str_beq}
use wintermute.Prelude.Assoc.{lookup}
use wintermute.Prelude.Results.{ok_inj}
use wintermute.Tool.{Call}
use wintermute.Llm.Message.{Message, user, user_message}
use wintermute.Agent.Ephemeral.{EphemeralSession, Sessions, Ephemeral, oldest, oldest_from, older}
use wintermute.Agent.Ephemeral
use wintermute.Agent.Ephemeral.Evict.{IsLeast, oldest-IsLeast}
use wintermute.Agent.Ephemeral.Laws.{
  IsPool, Op, append_op, seed_op, messages_op, drop_op, run, run-IsPool,
}
use wintermute.Agent.Ephemeral.Fresh.{append-lookup}
use wintermute.Agent.Store.{Codec, Store}
use wintermute.Agent.Store
use wintermute.Agent.Store.Rows.{IsCodec, Appended, messages-append_messages}
use wintermute.Agent.Transcript.{Memory, Session, transcript_for, append, set_memory}
use wintermute.Agent.Transcript.Privacy.{
  Recorded, Unrecorded, append_off_record, append_on_record, set_memory_off, set_memory_carries,
}

abbrev hello : Message
hello = user_message (codes "hello")

abbrev again : Message
again = user_message (codes "again")

abbrev old_session : EphemeralSession
old_session = record { messages = hello ∷ []; last_used = 5 }

abbrev pool : Ephemeral
pool = record { sessions = (codes "old", old_session) ∷ []; max_sessions = 2; ttl = 100 }

cons_nil : (n : ℕ) (s : Str) → (n ∷ s) ≢ []
cons_nil n s h = cc h

pool-IsPool : IsPool pool
pool-IsPool = record { named = (cons_nil _ _, tt); distinct = (refl, tt); within = omega arith }

oldest-IsLeast_example : IsLeast pool.sessions (oldest pool.sessions)
oldest-IsLeast_example = oldest-IsLeast (codes "old", old_session) [] (cons_nil _ _, tt)

abbrev some_ops : List Op
some_ops =
    append_op 6 (codes "a") (hello ∷ [])
    ∷ seed_op 7 (codes "b") (again ∷ [])
    ∷ messages_op 8 (codes "a")
    ∷ drop_op (codes "b")
    ∷ []

run-IsPool_example : IsPool (run some_ops pool)
run-IsPool_example =
    run-IsPool some_ops pool (cons_nil _ _, (cons_nil _ _, (cons_nil _ _, (cons_nil _ _, tt))))
      pool-IsPool

append-lookup_example :
    lookup (codes "a") (Ephemeral.append 9 (codes "a") (again ∷ hello ∷ []) pool).sessions
    ≡ some (record {
      messages = (Ephemeral.messages 9 (codes "a") pool).0 ++ again ∷ hello ∷ [];
      last_used = 9;
    })
append-lookup_example =
    append-lookup 9 (codes "a") again (hello ∷ []) pool (cons_nil _ _) (omega arith) pool-IsPool
      (omega arith, tt)

-- A codec that keeps only how many entries a list has.
abbrev encoded : {A : Type 0} → List A → Result Str Str
encoded xs = ok (91 ∷ map (λ x. 44) xs)

abbrev decoded_as : {A : Type 0} → A → Str → Result Str (List A)
decoded_as blank [] = err []
decoded_as blank (c ∷ t) = ok (map (λ x. blank) t)

abbrev blank_call : Call
blank_call = record { id = []; name = []; input = [] }

abbrev counting : Codec
counting = record {
  encode_calls = encoded;
  decode_calls = decoded_as blank_call;
  encode_thinking = encoded;
  decode_thinking = decoded_as [];
}

abbrev ComesBack : {A : Type 0} → A → List A → Str → Type 0
ComesBack blank xs t = (t ≢ []) × (decoded_as blank t ≡ ok (map (λ x. blank) xs))

twice :
    {A : Type 0} (blank : A) (xs : List A)
    → map (λ (n : ℕ). blank) (map (λ x. 44) xs) ≡ map (λ x. blank) xs
twice blank [] = refl
twice blank (x ∷ xs) = ap (λ ys. blank ∷ ys) (twice blank xs)

encoded-ComesBack :
    {A : Type 0} (blank : A) (xs : List A) (t : Str) → encoded xs ≡ ok t → ComesBack blank xs t
encoded-ComesBack blank xs t h =
    subst (ComesBack blank xs) (ok_inj h) (cons_nil _ _, ap ok (twice blank xs))

counting-IsCodec : IsCodec counting (λ c. blank_call) (λ b. [])
counting-IsCodec = record { calls = encoded-ComesBack blank_call; thinking = encoded-ComesBack [] }

abbrev store : Store
store = record {
  rows =
      record {
        id = 1;
        session_id = codes "s";
        seq = 1;
        role = user;
        content = codes "hello";
        tool_calls = [];
        tool_call_id = [];
        is_error = false;
        thinking = [];
        backend = [];
        model = [];
        token_count = 0;
      }
      ∷ [];
  next_id = 2;
  sessions = (codes "s", record { client_id = 3; recorded = true; recall = true }) ∷ [];
}

-- A message that calls a tool.
abbrev calling : Message
calling = record again { tool_calls = record { id = codes "1"; name = codes "t"; input = [] } ∷ [] }

read_store : Store.messages counting (codes "s") store ≡ ok (hello ∷ [])
unfolding Store.messages Store.by_seq Store.of_session Store.read_rows Store.read_row str_beq
read_store = refl

messages-append_messages_example :
    Appended counting
      (λ c. blank_call)
      (λ b. [])
      counting-IsCodec
      (codes "s")
      (hello ∷ [])
      (calling ∷ [])
      store
      (Store.append_messages counting (codes "s") (calling ∷ []) store)
messages-append_messages_example =
    messages-append_messages counting (λ c. blank_call) (λ b. []) counting-IsCodec (codes "s")
      (calling ∷ []) store (hello ∷ []) read_store

abbrev memory : Memory
memory = record { store = store; ephemeral = some pool; has_indexer = true; queue = [] }

abbrev recorded_session : Session
recorded_session = record { id = codes "s"; client_id = 3; recorded = true }

abbrev private_session : Session
private_session = record recorded_session { recorded = false }

other_id : codes "s" ≢ codes "t"
unfolding str_beq
other_id = ne_of_beq (codes "s") (codes "t") refl

append_off_record_example :
    let (r, a') =
      append counting 9 (transcript_for memory private_session) (codes "s") (again ∷ []) memory in
    (r ≡ ok tt) × (a'.store ≡ store) × (a'.queue ≡ [])
append_off_record_example =
    append_off_record counting 9 private_session (again ∷ []) memory refl (λ h. cc h)

append_on_record_example :
    Recorded counting
      (λ c. blank_call)
      (λ b. [])
      counting-IsCodec
      recorded_session
      (hello ∷ [])
      (calling ∷ [])
      memory
      (append counting 9 (transcript_for memory recorded_session) (codes "s") (calling ∷ []) memory)
append_on_record_example =
    append_on_record counting (λ c. blank_call) (λ b. []) counting-IsCodec 9 recorded_session
      (calling ∷ []) (hello ∷ []) memory refl read_store

set_memory_off_example :
    Unrecorded counting recorded_session
      (codes "t")
      memory
      (set_memory counting 9 recorded_session false true memory)
set_memory_off_example = set_memory_off counting 9 recorded_session (codes "t") true memory other_id

set_memory_carries_example :
    (e' : Ephemeral) × ((set_memory counting 9 recorded_session false true memory).1.ephemeral
      ≡ some e')
    × (lookup (codes "s") e'.sessions ≡ some (record { messages = hello ∷ []; last_used = 9 }))
set_memory_carries_example =
    set_memory_carries counting 9 recorded_session true memory pool (hello ∷ []) refl refl
      read_store (cons_nil _ _) (omega arith) pool-IsPool (omega arith, tt)
