-- ===== src/Agent/Ephemeral/Fresh.antt =====
-- transcript.go: an append is not lost to the eviction that it triggers.
use wintermute.Prelude.{
  ℕ, zero, suc, ◌<◌, ◌≡◌, ◌≢◌, refl, ap, sym, ◌∙◌, ◌⊎◌, inl, inr, false, some, List, [], ◌∷◌, ◌++◌,
  leb, ◌==◌, length, arith, All, All-imp, Bool-cases, ne_of_beq, subst, if_intro, Option-cases,
}
use wintermute.Prelude.Str.{Str, str_eq}
use wintermute.Prelude.Assoc.{
  lookup, insert, erase, contains, HasDistinctKeys, insert-HasDistinctKeys, erase-HasDistinctKeys,
  erase-All, lookup-erase_ne, lookup-insert_self,
}
use wintermute.Llm.Message.{Message}
use wintermute.Agent.Ephemeral.{
  EphemeralSession, Sessions, Ephemeral, drop_expired, oldest, shrink, evict, held, append,
  messages, seed,
}
use wintermute.Agent.Ephemeral.Evict.{IsNamed, before, oldest-IsLeast, oldest-All}
use wintermute.Agent.Ephemeral.Laws.{
  IsPool, insert-IsNamed, drop_expired-All, drop_expired-HasDistinctKeys,
}

-- An entry is that of the session `id`, used at `now`, or it was used earlier.
abbrev IsNow : Str → ℕ → Str × EphemeralSession → Type 0
IsNow id now x = ((x.0 ≡ id) × (x.1.last_used ≡ now)) ⊎ ((x.0 ≢ id) × (x.1.last_used < now))

-- Of two sessions or more the one used now is not the victim.
oldest-ne_now :
    (id : Str) (now : ℕ) (x y : Str × EphemeralSession) (m : Sessions)
    → IsNamed (x ∷ y ∷ m)
    → HasDistinctKeys (x ∷ y ∷ m)
    → All (IsNow id now) (x ∷ y ∷ m)
    → (oldest (x ∷ y ∷ m)).0 ≢ id
oldest-ne_now id now x y m n d h q = elim h.0 [
  | inr earlier ↦ ground (arith, least.0, at_now q)
  | inl now_x ↦ elim h.1.0 [
    | inr earlier ↦ ground (arith, least.1.0, at_now q)
    | inl now_y ↦ ground (arith, str_eq.test_iff y.0 x.0)
  ]
]
  where
    least : All (λ z. before (z.0, z.1.last_used) (oldest (x ∷ y ∷ m)) ≡ false) (x ∷ y ∷ m)
    least = (oldest-IsLeast x (y ∷ m) n).least

    r : Str × ℕ
    r = oldest (x ∷ y ∷ m)

    at_now : r.0 ≡ id → r.1 ≡ now
    at_now =
        oldest-All (λ r. r.0 ≡ id → r.1 ≡ now) x (y ∷ m) n
          (All-imp (IsNow id now) (λ z. z.0 ≡ id → z.1.last_used ≡ now)
            (λ z c e. elim c [ inl here ↦ here.1 | inr other ↦ absurd (other.0 e) ]) (x ∷ y ∷ m) h)

-- The session used now survives the loop.
lookup-shrink_now :
    (fuel max_sessions : ℕ) (id : Str) (now : ℕ) (m : Sessions)
    → 0 < max_sessions
    → IsNamed m
    → HasDistinctKeys m
    → All (IsNow id now) m
    → lookup id (shrink fuel max_sessions m) ≡ lookup id m
unfolding shrink
lookup-shrink_now zero max_sessions id now m p n d h = refl
lookup-shrink_now (suc fuel) max_sessions id now [] p n d h = ground arith
lookup-shrink_now (suc fuel) max_sessions id now (x ∷ []) p n d h = ground arith
lookup-shrink_now (suc fuel) max_sessions id now (x ∷ y ∷ m) p n d h =
    if_intro (λ (t : Sessions). lookup id t ≡ lookup id (x ∷ y ∷ m))
      (leb (length (x ∷ y ∷ m)) max_sessions) refl
      (if_intro (λ (t : Sessions). lookup id t ≡ lookup id (x ∷ y ∷ m)) (victim == []) refl
        (lookup-shrink_now fuel max_sessions id now (erase victim (x ∷ y ∷ m)) p
            (erase-All (λ z. z.0 ≢ []) victim (x ∷ y ∷ m) n)
            (erase-HasDistinctKeys victim (x ∷ y ∷ m) d)
            (erase-All (IsNow id now) victim (x ∷ y ∷ m) h)
          ∙ lookup-erase_ne id victim (x ∷ y ∷ m) (oldest-ne_now id now x y m n d h)))
  where
    victim : Str
    victim = (oldest (x ∷ y ∷ m)).0

lookup-drop_expired_now :
    (now ttl : ℕ) (id : Str) (m : Sessions)
    → All (IsNow id now) m
    → lookup id (drop_expired now ttl m) ≡ lookup id m
unfolding drop_expired
lookup-drop_expired_now now ttl id [] h = refl
lookup-drop_expired_now now ttl id ((j, s) ∷ m) h =
    ground (arith, str_eq.test_iff j id, h.0, lookup-drop_expired_now now ttl id m h.1)

-- Without the session `id`, all of a pool was used before `now`.
absent-IsNow :
    (id : Str) (now : ℕ) (m : Sessions)
    → contains id m ≡ false
    → All (λ x. x.1.last_used < now) m
    → All (IsNow id now) m
absent-IsNow id now [] c h = tt
absent-IsNow id now ((j, s) ∷ m) c h = elim (Bool-cases (j == id)) [
  | inl same ↦ cc (rw same at c)
  | inr other ↦ (inr (ne_of_beq j id other, h.0), absent-IsNow id now m (rw other at c) h.1)
]

insert-IsNow :
    (id : Str) (now : ℕ) (s : EphemeralSession) (m : Sessions)
    → s.last_used ≡ now
    → HasDistinctKeys m
    → All (λ x. x.1.last_used < now) m
    → All (IsNow id now) (insert id s m)
insert-IsNow id now s [] t d h = (inl (refl, t), tt)
insert-IsNow id now s ((j, u) ∷ m) t d h = elim (Bool-cases (j == id)) [
  | inl same ↦
      let e = (str_eq.test_iff j id).0 same in
      rw same (inl (e, t), absent-IsNow id now m (subst (λ k. contains k m ≡ false) e d.0) h.1)
  | inr other ↦ rw other (inr (ne_of_beq j id other, h.0), insert-IsNow id now s m t d.1 h.1)
]

messages-held : (now : ℕ) (id : Str) (e : Ephemeral) → (messages now id e).0 ≡ held id e.sessions
unfolding messages held
messages-held now id e = elim (Option-cases (lookup id e.sessions)) [
  | inl missing ↦ rw (missing, messages, held)
  | inr (s, there) ↦ rw (there, messages, held)
]

-- A session that is put into the pool at `now` is still there behind the eviction.
lookup-evict-insert :
    (now : ℕ) (id : Str) (msgs : List Message) (e : Ephemeral)
    → id ≢ []
    → 0 < e.max_sessions
    → IsPool e
    → All (λ x. x.1.last_used < now) e.sessions
    → let s : EphemeralSession = record { messages = msgs; last_used = now } in
      lookup id (evict now (record e { sessions = insert id s e.sessions })).sessions ≡ some s
unfolding evict
lookup-evict-insert now id msgs e n p pool earlier =
    let s : EphemeralSession = record { messages = msgs; last_used = now } in
    let m = insert id s e.sessions in
    let fresh = drop_expired now e.ttl m in
    let is_now = insert-IsNow id now s e.sessions refl pool.distinct earlier in
    lookup-shrink_now (length fresh) e.max_sessions id now fresh p
      (drop_expired-All (λ x. x.0 ≢ []) now e.ttl m (insert-IsNamed id s e.sessions n pool.named))
      (drop_expired-HasDistinctKeys now e.ttl m
        (insert-HasDistinctKeys id s e.sessions pool.distinct))
      (drop_expired-All (IsNow id now) now e.ttl m is_now)
    ∙ lookup-drop_expired_now now e.ttl id m is_now
    ∙ lookup-insert_self id s e.sessions

-- In a sound pool with room for a session, what is appended to a conversation, under an id that is not
-- empty, stands at the end of it, whatever the eviction then drops, provided that the clock has moved on
-- since the pool's conversations were used.
pub append-lookup :
    (now : ℕ) (id : Str) (msg : Message) (msgs : List Message) (e : Ephemeral)
    → id ≢ []
    → 0 < e.max_sessions
    → IsPool e
    → All (λ x. x.1.last_used < now) e.sessions
    → lookup id (append now id (msg ∷ msgs) e).sessions
      ≡ some (record { messages = (messages now id e).0 ++ msg ∷ msgs; last_used = now })
unfolding append
append-lookup now id msg msgs e n p pool earlier =
    lookup-evict-insert now id (held id e.sessions ++ msg ∷ msgs) e n p pool earlier
    ∙ ap
        (λ (before_it : List Message).
          some (record { messages = before_it ++ msg ∷ msgs; last_used = now }))
        (sym (messages-held now id e))

pub seed-lookup :
    (now : ℕ) (id : Str) (msgs : List Message) (e : Ephemeral)
    → id ≢ []
    → 0 < e.max_sessions
    → IsPool e
    → All (λ x. x.1.last_used < now) e.sessions
    → lookup id (seed now id msgs e).sessions ≡ some (record { messages = msgs; last_used = now })
unfolding seed
seed-lookup now id msgs e n p pool earlier = lookup-evict-insert now id msgs e n p pool earlier
