-- ===== src/Agent/Ephemeral/Laws.antt =====
-- transcript.go: the pool stays within its limit, and the conversation just written stays in it.
use wintermute.Prelude.{
  ℕ, zero, suc, ◌-◌, ◌≤◌, ◌≡◌, ◌≢◌, refl, sym, ◌∙◌, inl, inr, true, false, List, [], ◌∷◌, ltb, leb,
  ◌==◌, length, arith, All, Bool-cases, if_intro, leb→le, Option-cases,
}
use wintermute.Prelude.Str.{Str, str_eq}
use wintermute.Prelude.Assoc.{
  lookup, insert, erase, contains, HasDistinctKeys, insert-HasDistinctKeys, erase-HasDistinctKeys,
  length-erase, length-insert_present, length-erase-le, erase-All, insert-All, contains_self,
}
use wintermute.Llm.Message.{Message}
use wintermute.Agent.Ephemeral.{
  EphemeralSession, Sessions, Ephemeral, drop_expired, oldest, shrink, evict, append, messages,
  seed, drop,
}
use wintermute.Agent.Ephemeral.Evict.{IsNamed, oldest_named, oldest-All}

-- An erased victim makes the pool smaller by one.
erase-smaller :
    (x : Str × EphemeralSession) (m : Sessions)
    → IsNamed (x ∷ m)
    → suc (length (erase (oldest (x ∷ m)).0 (x ∷ m))) ≡ length (x ∷ m)
erase-smaller x m n =
    length-erase (oldest (x ∷ m)).0 (x ∷ m)
      (oldest-All (λ r. contains r.0 (x ∷ m) ≡ true) x m n (contains_self (x ∷ m)))

-- The loop of `evictLocked` ends with the pool within the limit, the fuel being its size.
shrink-within :
    (fuel max_sessions : ℕ) (m : Sessions)
    → length m ≤ fuel
    → IsNamed m
    → length (shrink fuel max_sessions m) ≤ max_sessions
unfolding shrink
shrink-within zero max_sessions [] h n = omega arith
shrink-within zero max_sessions (x ∷ m) h n = absurd (omega arith)
shrink-within (suc fuel) max_sessions [] h n = ground arith
shrink-within (suc fuel) max_sessions (x ∷ m) h n =
    elim (Bool-cases (leb (length (x ∷ m)) max_sessions)) [
      | inl small ↦ rw small (leb→le _ _ small)
      | inr big ↦ elim (Bool-cases ((oldest (x ∷ m)).0 == [])) [
        | inl unnamed ↦ absurd (oldest_named x m n ((str_eq.test_iff _ _).0 unnamed))
        | inr named ↦
            rw (big, named)
              (shrink-within fuel max_sessions (erase (oldest (x ∷ m)).0 (x ∷ m))
                (omega (arith, erase-smaller x m n))
                (erase-All (λ y. y.0 ≢ []) (oldest (x ∷ m)).0 (x ∷ m) n))
      ]
    ]

-- A property of the entries that every part of the eviction keeps.
pub drop_expired-All :
    (P : Str × EphemeralSession → Type 0) (now ttl : ℕ) (m : Sessions)
    → All P m
    → All P (drop_expired now ttl m)
unfolding drop_expired
drop_expired-All P now ttl [] h = tt
drop_expired-All P now ttl ((id, s) ∷ m) h =
    let rest = drop_expired-All P now ttl m h.1 in
    if_intro (All P) (ltb ttl (now - s.last_used)) rest (h.0, rest)

contains-drop_expired :
    (k : Str) (now ttl : ℕ) (m : Sessions)
    → contains k m ≡ false
    → contains k (drop_expired now ttl m) ≡ false
unfolding drop_expired
contains-drop_expired k now ttl [] h = refl
contains-drop_expired k now ttl ((id, s) ∷ m) h = ground (arith, contains-drop_expired k now ttl m)

pub drop_expired-HasDistinctKeys :
    (now ttl : ℕ) (m : Sessions) → HasDistinctKeys m → HasDistinctKeys (drop_expired now ttl m)
unfolding drop_expired
drop_expired-HasDistinctKeys now ttl [] h = tt
drop_expired-HasDistinctKeys now ttl ((id, s) ∷ m) h =
    let rest = drop_expired-HasDistinctKeys now ttl m h.1 in
    if_intro HasDistinctKeys (ltb ttl (now - s.last_used)) rest
      (contains-drop_expired id now ttl m h.0, rest)

shrink-All :
    (P : Str × EphemeralSession → Type 0) (fuel max_sessions : ℕ) (m : Sessions)
    → All P m
    → All P (shrink fuel max_sessions m)
unfolding shrink
shrink-All P zero max_sessions m h = h
shrink-All P (suc fuel) max_sessions m h = if_intro (All P) (leb (length m) max_sessions) h (
    if_intro (All P) ((oldest m).0 == []) h
      (shrink-All P fuel max_sessions (erase (oldest m).0 m) (erase-All P (oldest m).0 m h)))

shrink-HasDistinctKeys :
    (fuel max_sessions : ℕ) (m : Sessions)
    → HasDistinctKeys m
    → HasDistinctKeys (shrink fuel max_sessions m)
unfolding shrink
shrink-HasDistinctKeys zero max_sessions m h = h
shrink-HasDistinctKeys (suc fuel) max_sessions m h =
    if_intro HasDistinctKeys (leb (length m) max_sessions) h (
      if_intro HasDistinctKeys ((oldest m).0 == []) h (
        shrink-HasDistinctKeys fuel max_sessions (erase (oldest m).0 m)
          (erase-HasDistinctKeys (oldest m).0 m h)))

-- A pool between two operations.
pub record IsPool (e : Ephemeral) : Type 0 where
  pub named : IsNamed e.sessions
  pub distinct : HasDistinctKeys e.sessions
  pub within : length e.sessions ≤ e.max_sessions

evict-IsPool :
    (now : ℕ) (e : Ephemeral)
    → IsNamed e.sessions
    → HasDistinctKeys e.sessions
    → IsPool (evict now e)
unfolding evict
evict-IsPool now e n d =
    let fresh = drop_expired now e.ttl e.sessions in
    let named = drop_expired-All (λ x. x.0 ≢ []) now e.ttl e.sessions n in
    record {
      named = shrink-All (λ x. x.0 ≢ []) (length fresh) e.max_sessions fresh named;
      distinct =
          shrink-HasDistinctKeys (length fresh) e.max_sessions fresh
            (drop_expired-HasDistinctKeys now e.ttl e.sessions d);
      within = shrink-within (length fresh) e.max_sessions fresh (omega arith) named;
    }

pub insert-IsNamed :
    (id : Str) (s : EphemeralSession) (m : Sessions) → id ≢ [] → IsNamed m → IsNamed (insert id s m)
insert-IsNamed id s m n h =
    insert-All (λ x. x.0 ≢ []) id s m (λ j same q. n (sym ((str_eq.test_iff j id).0 same) ∙ q)) h

pub append-IsPool :
    (now : ℕ) (id : Str) (msgs : List Message) (e : Ephemeral)
    → id ≢ []
    → IsPool e
    → IsPool (append now id msgs e)
unfolding append
append-IsPool now id [] e n p = p
append-IsPool now id (msg ∷ msgs) e n p =
    evict-IsPool now _ (insert-IsNamed id _ e.sessions n p.named)
      (insert-HasDistinctKeys id _ e.sessions p.distinct)

-- The operations of the pool, at the clock's reading of each call.
pub data Op : Type 0 where
  append_op seed_op : ℕ → Str → List Message → Op
  messages_op : ℕ → Str → Op
  drop_op : Str → Op

abbrev pub HasId : Op → Type 0
HasId (append_op now id msgs) = id ≢ []
HasId (seed_op now id msgs) = id ≢ []
HasId (messages_op now id) = id ≢ []
HasId (drop_op id) = id ≢ []

pub apply : Op → Ephemeral → Ephemeral
apply (append_op now id msgs) e = append now id msgs e
apply (seed_op now id msgs) e = seed now id msgs e
apply (messages_op now id) e = (messages now id e).1
apply (drop_op id) e = drop id e

pub run : List Op → Ephemeral → Ephemeral
run [] e = e
run (op ∷ ops) e = run ops (apply op e)

messages-IsPool :
    (now : ℕ) (id : Str) (e : Ephemeral) → id ≢ [] → IsPool e → IsPool (messages now id e).1
unfolding messages
messages-IsPool now id e n p = elim (Option-cases (lookup id e.sessions)) [
  | inl missing ↦ rw (missing, messages) p
  | inr (s, there) ↦
      rw (there, messages)
        (record {
          named = insert-IsNamed id _ e.sessions n p.named;
          distinct = insert-HasDistinctKeys id _ e.sessions p.distinct;
          within = omega (
            arith,
            length-insert_present id (record s { last_used = now }) e.sessions there,
            p.within,
          );
        })
]

apply-IsPool : (op : Op) (e : Ephemeral) → HasId op → IsPool e → IsPool (apply op e)
unfolding apply seed drop
apply-IsPool (append_op now id msgs) e n p = append-IsPool now id msgs e n p
apply-IsPool (seed_op now id msgs) e n p =
    evict-IsPool now _ (insert-IsNamed id _ e.sessions n p.named)
      (insert-HasDistinctKeys id _ e.sessions p.distinct)
apply-IsPool (messages_op now id) e n p = messages-IsPool now id e n p
apply-IsPool (drop_op id) e n p = record {
  named = erase-All (λ x. x.0 ≢ []) id e.sessions p.named;
  distinct = erase-HasDistinctKeys id e.sessions p.distinct;
  within = omega (arith, length-erase-le id e.sessions, p.within);
}

-- Whatever is appended, read, seeded or dropped, under ids that are not empty, a sound pool stays
-- sound: no more sessions than its limit, no two under one id, and none under the empty id.
pub run-IsPool : (ops : List Op) (e : Ephemeral) → All HasId ops → IsPool e → IsPool (run ops e)
unfolding run
run-IsPool [] e h p = p
run-IsPool (op ∷ ops) e h p = run-IsPool ops (apply op e) h.1 (apply-IsPool op e h.0 p)
