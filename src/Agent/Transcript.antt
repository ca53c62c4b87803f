-- ===== src/Agent/Transcript.antt =====
-- internal/agent/transcript.go: where a session's history lives. The store, the pool in memory, which
-- an agent may be without, and the queue of the optional indexer are one state.
pub mod Privacy
use wintermute.Prelude.{
  ℕ, Bool, true, false, not, ◌&&◌, ◌||◌, Option, none, some, List, [], ◌∷◌, ◌++◌, Result, ok, err,
  if◌then◌else◌,
}
use wintermute.Prelude.Str.{Str}
use wintermute.Llm.Message.{Message}
use wintermute.Agent.Store.{Codec, Store, StoreError}
use wintermute.Agent.Store
use wintermute.Agent.Ephemeral.{Ephemeral}
use wintermute.Agent.Ephemeral

pub record Memory : Type 0 where
  pub store : Store
  pub ephemeral : Option Ephemeral
  pub has_indexer : Bool
  pub queue : List ℕ

-- What the loop knows of the session.
pub record Session : Type 0 where
  pub id : Str
  pub client_id : ℕ
  pub recorded : Bool

-- `storeTranscript`, and `dualTranscript` with its `persist`.
pub data Transcript : Type 0 where
  stored : Transcript
  dual : Bool → Transcript

abbrev pub chosen : Session → Option Ephemeral → Transcript
chosen sess none = stored
chosen sess (some e) =
    if not sess.recorded || Ephemeral.has sess.id e then dual sess.recorded else stored

unfoldable pub transcript_for : Memory → Session → Transcript
transcript_for a sess = chosen sess a.ephemeral

-- `Indexer.Enqueue`, if there is an indexer.
abbrev pub enqueue : Bool → List ℕ → List ℕ → List ℕ
enqueue true ids queue = queue ++ ids
enqueue false ids queue = queue

-- What the queue gets once the store has answered.
abbrev pub queued :
    Memory → Result StoreError (List ℕ) × Store → Result StoreError (Unit {0}) × Memory
queued a (ok ids, s) = (ok tt, record a { store = s; queue = enqueue a.has_indexer ids a.queue })
queued a (err e, s) = (err e, record a { store = s })

-- `storeTranscript.Append`
unfoldable pub append_stored :
    Codec → Str → List Message → Memory → Result StoreError (Unit {0}) × Memory
append_stored json sid msgs a = queued a (Store.append_messages json sid msgs a.store)

unfoldable pub append_memory : ℕ → Str → List Message → Memory → Memory
append_memory now sid msgs a = elim a.ephemeral [
  | none ↦ a
  | some e ↦ record a { ephemeral = some (Ephemeral.append now sid msgs e) }
]

-- `Append` of the transcript that `transcriptFor` has chosen.
unfoldable pub append :
    Codec → ℕ → Transcript → Str → List Message → Memory → Result StoreError (Unit {0}) × Memory
append json now stored sid msgs a = append_stored json sid msgs a
append json now (dual false) sid msgs a = (ok tt, append_memory now sid msgs a)
append json now (dual true) sid msgs a = append_stored json sid msgs (append_memory now sid msgs a)

read_memory : ℕ → Str → Memory → List Message × Memory
read_memory now sid a = elim a.ephemeral [
  | none ↦ ([], a)
  | some e ↦
      let (msgs, e') = Ephemeral.messages now sid e in (msgs, record a { ephemeral = some e' })
]

abbrev pub read_by : List Message × Memory → Result StoreError (List Message) × Memory
read_by (ms, a) = (ok ms, a)

-- `Messages` of the transcript.
unfoldable pub messages :
    Codec → ℕ → Transcript → Str → Memory → Result StoreError (List Message) × Memory
unfolding read_memory
messages json now stored sid a = (Store.messages json sid a.store, a)
messages json now (dual persist) sid a = read_by (read_memory now sid a)

abbrev pub seeded :
    ℕ → Str → Memory → Ephemeral → Result StoreError (List Message) → Result StoreError Memory
seeded now sid a e (ok history) =
    ok (record a { ephemeral = some (Ephemeral.seed now sid history e) })
seeded now sid a e (err f) = err f

abbrev pub carried :
    Codec → ℕ → Session → Bool → Memory → Option Ephemeral → Result StoreError Memory
carried json now sess recorded a none = ok a
carried json now sess recorded a (some e) =
    if not recorded && sess.recorded
    then seeded now sess.id a e (Store.messages json sess.id a.store)
    else ok a

-- The part of `SetMemory` before the store is changed: what was said so far is carried into memory.
unfoldable pub carry_over : Codec → ℕ → Session → Bool → Memory → Result StoreError Memory
carry_over json now sess recorded a = carried json now sess recorded a a.ephemeral

abbrev pub switched :
    Session
    → Bool
    → Bool
    → Memory
    → Result StoreError Memory
    → Result StoreError (Unit {0}) × Memory
switched sess recorded recall a (ok carried) =
    let (r, s) = Store.set_session_memory sess.id sess.client_id recorded recall carried.store in
    (r, record carried { store = s })
switched sess recorded recall a (err f) = (err f, a)

unfoldable pub set_memory :
    Codec → ℕ → Session → Bool → Bool → Memory → Result StoreError (Unit {0}) × Memory
set_memory json now sess recorded recall a =
    switched sess recorded recall a (carry_over json now sess recorded a)

-- `EphemeralMessages`
unfoldable pub ephemeral_messages : ℕ → Str → Memory → List Message × Memory
unfolding read_memory
ephemeral_messages now sid a = read_memory now sid a

-- `EphemeralLen`
unfoldable pub ephemeral_len : Str → Memory → ℕ
ephemeral_len sid a = elim a.ephemeral [ none ↦ 0 | some e ↦ Ephemeral.len sid e ]
