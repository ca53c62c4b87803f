-- ===== src/Agent/Ephemeral.antt =====
-- internal/agent/transcript.go: `Ephemeral`, the pool of conversations that are held in memory only.
-- Times and durations are numbers, and `now` is the clock's reading at the call. A Go map is walked
-- in no fixed order; here it is the order of the list.
pub mod Evict
pub mod Laws
pub mod Fresh
use wintermute.Prelude.{
  ℕ, zero, suc, ◌-◌, Bool, true, false, ◌&&◌, ◌||◌, Option, none, some, List, [], ◌∷◌, ◌++◌, ltb,
  leb, nat_beq, ◌==◌, if◌then◌else◌, length,
}
use wintermute.Prelude.Str.{Str, str_eq, ltb_str}
use wintermute.Prelude.Assoc.{Assoc, lookup, insert, erase, contains}
use wintermute.Llm.Message.{Message}

pub record EphemeralSession : Type 0 where
  pub messages : List Message
  pub last_used : ℕ

abbrev pub Sessions : Type 0
Sessions = Assoc Str EphemeralSession

pub record Ephemeral : Type 0 where
  pub sessions : Sessions
  pub max_sessions : ℕ
  pub ttl : ℕ

-- Durations are in nanoseconds.
abbrev pub default_ttl : ℕ
default_ttl = 43_200_000_000_000

-- The limits that are not positive stand for the defaults.
unfoldable pub new_ephemeral : ℕ → ℕ → Ephemeral
new_ephemeral max_sessions ttl = record {
  sessions = [];
  max_sessions = if nat_beq max_sessions 0 then 64 else max_sessions;
  ttl = if nat_beq ttl 0 then default_ttl else ttl;
}

-- The sessions that have not gone quiet for longer than `ttl`.
unfoldable pub drop_expired : ℕ → ℕ → Sessions → Sessions
drop_expired now ttl [] = []
drop_expired now ttl ((id, s) ∷ m) =
    let rest = drop_expired now ttl m in
    if ltb ttl (now - s.last_used) then rest else (id, s) ∷ rest

-- One round of the search for the least recently used: the candidate so far, and a session.
unfoldable pub older : Str × ℕ → Str × EphemeralSession → Str × ℕ
older (oldest_id, oldest) (id, s) =
    if oldest_id == []
      || ltb s.last_used oldest
      || (nat_beq s.last_used oldest && ltb_str id oldest_id)
    then (id, s.last_used)
    else (oldest_id, oldest)

unfoldable pub oldest_from : Str × ℕ → Sessions → Str × ℕ
oldest_from best [] = best
oldest_from best (x ∷ m) = oldest_from (older best x) m

-- The session that a round drops: none is named in an empty pool.
unfoldable pub oldest : Sessions → Str × ℕ
oldest m = oldest_from ([], 0) m

-- The loop that drops one session after another, on fuel.
unfoldable pub shrink : ℕ → ℕ → Sessions → Sessions
shrink zero max_sessions m = m
shrink (suc fuel) max_sessions m =
    let victim = (oldest m).0 in
    let rest = shrink fuel max_sessions (erase victim m) in
    if leb (length m) max_sessions then m else if victim == [] then m else rest

-- `evictLocked`: each round drops a session, so their number is fuel enough.
unfoldable pub evict : ℕ → Ephemeral → Ephemeral
evict now e =
    let fresh = drop_expired now e.ttl e.sessions in
    record e { sessions = shrink (length fresh) e.max_sessions fresh }

held : Str → Sessions → List Message
held id m = elim (lookup id m) [ none ↦ [] | some s ↦ s.messages ]

-- `Ephemeral.Append`
unfoldable pub append : ℕ → Str → List Message → Ephemeral → Ephemeral
unfolding held
append now id [] e = e
append now id (msg ∷ msgs) e =
    let s : EphemeralSession = record {
      messages = held id e.sessions ++ msg ∷ msgs;
      last_used = now;
    } in
    evict now (record e { sessions = insert id s e.sessions })

-- `Ephemeral.Messages`: a session that is read counts as used.
unfoldable pub messages : ℕ → Str → Ephemeral → List Message × Ephemeral
messages now id e = elim (lookup id e.sessions) [
  | none ↦ ([], e)
  | some s ↦
      (s.messages, record e { sessions = insert id (record s { last_used = now }) e.sessions })
]

unfoldable pub seed : ℕ → Str → List Message → Ephemeral → Ephemeral
seed now id msgs e =
    evict now
      (record e { sessions = insert id (record { messages = msgs; last_used = now }) e.sessions })

unfoldable pub has : Str → Ephemeral → Bool
has id e = contains id e.sessions

-- `Ephemeral.Len`
unfoldable pub len : Str → Ephemeral → ℕ
unfolding held
len id e = length (held id e.sessions)

unfoldable pub drop : Str → Ephemeral → Ephemeral
drop id e = record e { sessions = erase id e.sessions }
