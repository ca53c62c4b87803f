-- ===== src/Agent/Transcript/Privacy.antt =====
-- transcript.go: what is said off the record is not written down, and is not lost by that.
use wintermute.Prelude.{
  ℕ, ◌≡◌, ◌≢◌, ◌<◌, refl, sym, ◌⊎◌, inl, inr, Bool, true, false, Option-cases, Option, none, some,
  List, [], ◌++◌, Result, ok, err, arith, All, subst, if_intro, map,
}
use wintermute.Prelude.Str.{Str, str_eq}
use wintermute.Prelude.Assoc.{lookup}
use wintermute.Tool.{Call}
use wintermute.Llm.Message.{Message}
use wintermute.Agent.Store.{Codec, Store, StoreError, not_found}
use wintermute.Agent.Store
use wintermute.Agent.Store.Rows.{IsCodec, stored_as, Appended, messages-append_messages}
use wintermute.Agent.Store.Erased.{IsOwner, set_session_memory-off}
use wintermute.Agent.Ephemeral.{Ephemeral}
use wintermute.Agent.Ephemeral.Laws.{IsPool}
use wintermute.Agent.Ephemeral.Fresh.{seed-lookup}
use wintermute.Agent.Ephemeral
use wintermute.Agent.Transcript.{
  Memory, Session, transcript_for, append, append_stored, append_memory, queued, seeded, switched,
  chosen, carried, carry_over, set_memory,
}

-- In an agent that has a pool, what is appended to a session that is not recorded leaves the store and
-- the indexer's queue as they were.
pub append_off_record :
    (json : Codec) (now : ℕ) (sess : Session) (msgs : List Message) (a : Memory)
    → sess.recorded ≡ false
    → a.ephemeral ≢ none
    → let (r, a') = append json now (transcript_for a sess) sess.id msgs a in
      (r ≡ ok tt) × (a'.store ≡ a.store) × (a'.queue ≡ a.queue)
unfolding append append_memory transcript_for
append_off_record json now sess msgs a off e = ground arith

module _ (json : Codec) (call : Call → Call) (block : Str → Str)
    (law : IsCodec json call block) where
  -- What an append to a recorded session has come to.
  abbrev pub Recorded :
      Session
      → List Message
      → List Message
      → Memory
      → Result StoreError (Unit {0}) × Memory
      → Type 0
  Recorded sess old msgs a x =
      ((x.0 ≡ ok tt)
        × (Store.messages json sess.id x.1.store ≡ ok (old ++ map (stored_as call block) msgs)))
      ⊎ ((e : StoreError) × (x.0 ≡ err e) × (x.1.store ≡ a.store))

  queued-Recorded :
      (sess : Session) (old msgs : List Message) (a b : Memory)
      (x : Result StoreError (List ℕ) × Store)
      → Appended json call block law sess.id old msgs a.store x
      → Recorded sess old msgs a (queued b x)
  queued-Recorded sess old msgs a b (ok ids, s) (inl h) = inl (refl, h.2)
  queued-Recorded sess old msgs a b (ok ids, s) (inr h) = ground (arith, h.1)
  queued-Recorded sess old msgs a b (err e, s) (inl h) = ground (arith, h.1)
  queued-Recorded sess old msgs a b (err e, s) (inr h) = inr (e, refl, h.2)

  append_stored-Recorded :
      (sess : Session) (old msgs : List Message) (a b : Memory)
      → b.store ≡ a.store
      → Store.messages json sess.id a.store ≡ ok old
      → Recorded sess old msgs a (append_stored json sess.id msgs b)
  unfolding append_stored
  append_stored-Recorded sess old msgs a b same h =
      queued-Recorded sess old msgs a b (Store.append_messages json sess.id msgs b.store) (
        subst
          (λ (s : Store).
            Appended json call block law sess.id old msgs a.store
              (Store.append_messages json sess.id msgs s))
          (sym same) (messages-append_messages json call block law sess.id msgs a.store old h))

  same_store :
      (now : ℕ) (sid : Str) (msgs : List Message) (a : Memory)
      → (append_memory now sid msgs a).store ≡ a.store
  unfolding append_memory
  same_store now sid msgs a = elim (Option-cases a.ephemeral) [
    | inl n ↦ rw (n, append_memory) refl
    | inr e ↦ rw (e.1, append_memory) refl
  ]

  pub append_on_record :
      (now : ℕ) (sess : Session) (msgs old : List Message) (a : Memory)
      → sess.recorded ≡ true
      → Store.messages json sess.id a.store ≡ ok old
      → Recorded sess old msgs a (append json now (transcript_for a sess) sess.id msgs a)
  unfolding append transcript_for
  append_on_record now sess msgs old a on h = by_choice a.ephemeral sess.recorded on
    where
      by_choice :
          (o : Option Ephemeral) (r : Bool)
          → r ≡ true
          → Recorded sess old msgs a
              (append json now (chosen (record sess { recorded = r }) o) sess.id msgs a)
      by_choice none r on = append_stored-Recorded sess old msgs a a refl h
      by_choice (some e) true on =
          if_intro (λ t. Recorded sess old msgs a (append json now t sess.id msgs a))
            (Ephemeral.has sess.id e)
            (append_stored-Recorded sess old msgs a (append_memory now sess.id msgs a)
              (same_store now sess.id msgs a) h)
            (append_stored-Recorded sess old msgs a a refl h)
      by_choice (some e) false on = ground arith

-- What `SetMemory` has come to with record off.
abbrev pub Unrecorded :
    Codec → Session → Str → Memory → Result StoreError (Unit {0}) × Memory → Type 0
Unrecorded json sess other a x =
    ((e : StoreError) × (Store.messages json sess.id a.store ≡ err e) × (x.0 ≡ err e) × (x.1 ≡ a))
    ⊎ (IsOwner sess.id sess.client_id a.store
        × (x.0 ≡ ok tt)
        × (Store.messages json sess.id x.1.store ≡ ok [])
        × (Store.messages json other x.1.store ≡ Store.messages json other a.store))
    ⊎ ((IsOwner sess.id sess.client_id a.store → ⊥) × (x.0 ≡ err not_found) × (x.1.store ≡ a.store))

switched-Unrecorded :
    (json : Codec) (sess : Session) (other : Str) (recall : Bool) (a b : Memory)
    → sess.id ≢ other
    → b.store ≡ a.store
    → Unrecorded json sess other a (switched sess false recall a (ok b))
switched-Unrecorded json sess other recall a b n same =
    subst
      (λ (s : Store). Unrecorded json sess other a (
        let (r, s') = Store.set_session_memory sess.id sess.client_id false recall s in
        (r, record b { store = s' })))
      (sym same) (inr (set_session_memory-off json sess.id other sess.client_id recall a.store n))

-- Taking a session off the record leaves none of its messages on disk, and all of every other
-- session's, where the session is the client's; where it is not, that is refused and nothing changes on
-- disk. Only where the session's messages cannot be decoded does it fail for another reason, and then
-- nothing at all has changed.
pub set_memory_off :
    (json : Codec) (now : ℕ) (sess : Session) (other : Str) (recall : Bool) (a : Memory)
    → sess.id ≢ other
    → Unrecorded json sess other a (set_memory json now sess false recall a)
unfolding set_memory carry_over
set_memory_off json now sess other recall a n = by_pool a.ephemeral
  where
    read :
        (e : Ephemeral) (m : Result StoreError (List Message))
        → Store.messages json sess.id a.store ≡ m
        → Unrecorded json sess other a (switched sess false recall a (seeded now sess.id a e m))
    read e (ok h) q =
        switched-Unrecorded json sess other recall a
          (record a { ephemeral = some (Ephemeral.seed now sess.id h e) }) n refl
    read e (err f) q = inl (f, q, refl, refl)

    by_pool :
        (o : Option Ephemeral)
        → Unrecorded json sess other a
            (switched sess false recall a (carried json now sess false a o))
    by_pool none = switched-Unrecorded json sess other recall a a n refl
    by_pool (some e) =
        if_intro (λ m. Unrecorded json sess other a (switched sess false recall a m)) sess.recorded
          (read e (Store.messages json sess.id a.store) refl)
          (switched-Unrecorded json sess other recall a a n refl)

-- In an agent that has a sound pool with room for a session, a recorded session, under an id that is not
-- empty, that is taken off the record goes on in memory with all that the store gives back of it, provided
-- that the store can read it and that the clock has moved on since the pool's sessions were used.
pub set_memory_carries :
    (json : Codec) (now : ℕ) (sess : Session) (recall : Bool) (a : Memory) (e : Ephemeral)
    (history : List Message)
    → a.ephemeral ≡ some e
    → sess.recorded ≡ true
    → Store.messages json sess.id a.store ≡ ok history
    → sess.id ≢ []
    → 0 < e.max_sessions
    → IsPool e
    → All (λ x. x.1.last_used < now) e.sessions
    → (e' : Ephemeral) × ((set_memory json now sess false recall a).1.ephemeral ≡ some e')
      × (lookup sess.id e'.sessions ≡ some (record { messages = history; last_used = now }))
unfolding set_memory carry_over
set_memory_carries json now sess recall a e history there on h n p pool earlier = (
  Ephemeral.seed now sess.id history e,
  rw (there, on, h, set_memory, carry_over) refl,
  seed-lookup now sess.id history e n p pool earlier,
)
