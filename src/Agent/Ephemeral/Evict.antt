-- ===== src/Agent/Ephemeral/Evict.antt =====
-- transcript.go: what `evictLocked` drops, and that it ends under the limit.
use mathlib.Core.List.{Memᴰ}
use mathlib.Core.List.Memᴰ.{head, tail}
use wintermute.Prelude.{
  ℕ, ◌≡◌, ◌≢◌, refl, ap, sym, ◌⊎◌, inl, inr, Bool, true, false, ◌&&◌, ◌||◌, [], ◌∷◌, ltb, nat_beq,
  arith, All, Bool-cases, subst, ==_refl,
}
use wintermute.Prelude.Str.{Str, str_eq, ltb_str}
use wintermute.Prelude.Sort.{ltb_str_asymm, ltb_str_cotrans}
use wintermute.Agent.Ephemeral.{EphemeralSession, Sessions, older, oldest_from, oldest}

-- No session has the empty id.
abbrev pub IsNamed : Sessions → Type 0
IsNamed m = All (λ x. x.0 ≢ []) m

-- `a` is used before `b`, ties going by the id.
abbrev pub before : Str × ℕ → Str × ℕ → Bool
before (i, s) (j, t) = ltb s t || (nat_beq s t && ltb_str i j)

abbrev used : Str × EphemeralSession → Str × ℕ
used (id, s) = (id, s.last_used)

before_cotrans : (a b c : Str × ℕ) → before a c ≡ true → (before a b ≡ true) ⊎ (before b c ≡ true)
before_cotrans (i, s) (j, t) (k, u) h = ground (arith, ltb_str_cotrans i j k)

before_asymm : (a b : Str × ℕ) → before a b ≡ true → before b a ≡ false
before_asymm (i, s) (j, t) h = ground (arith, ltb_str_asymm i j)

before_irrefl : (a : Str × ℕ) → before a a ≡ false
before_irrefl (i, s) = ground (arith, ltb_str_asymm i i)

before_weaken : (x b r : Str × ℕ) → before x b ≡ true → before x r ≡ false → before b r ≡ false
before_weaken x b r h k = elim (Bool-cases (before b r)) [
  | inr f ↦ f
  | inl t ↦ elim (before_cotrans b x r t) [ inl u ↦ cc (before_asymm x b h) | inr u ↦ cc ]
]

before_keep : (x b r : Str × ℕ) → before x b ≡ false → before b r ≡ false → before x r ≡ false
before_keep x b r h k = elim (Bool-cases (before x r)) [
  | inr f ↦ f
  | inl t ↦ elim (before_cotrans x b r t) [ inl u ↦ cc | inr u ↦ cc ]
]

-- The candidate, once named, is replaced exactly by what is before it.
older-cases :
    (best : Str × ℕ) (x : Str × EphemeralSession)
    → best.0 ≢ []
    → ((older best x ≡ used x) × (before (used x) best ≡ true))
      ⊎ ((older best x ≡ best) × (before (used x) best ≡ false))
unfolding older
older-cases (i, t) (id, s) n = ground (arith, str_eq.test_iff i [])

-- Neither the candidate nor a session is before what the search finds.
abbrev Found : Str × ℕ → Sessions → Str × ℕ → Type 0
Found best m r = (r.0 ≢ []) × (before best r ≡ false) × All (λ x. before (used x) r ≡ false) m

oldest_from-named :
    (best : Str × ℕ) (m : Sessions) → IsNamed m → best.0 ≢ [] → Found best m (oldest_from best m)
unfolding oldest_from
oldest_from-named best [] n b = (b, before_irrefl best, tt)
oldest_from-named best (x ∷ m) n b = elim (older-cases best x b) [
  | inl (e, lt) ↦
      let (named, first, rest) = oldest_from-named (used x) m n.1 n.0 in
      subst (Found best (x ∷ m)) (sym (ap (λ c. oldest_from c m) e))
        (named, before_weaken (used x) best _ lt first, (first, rest))
  | inr (e, ge) ↦
      let (named, first, rest) = oldest_from-named best m n.1 b in
      subst (Found best (x ∷ m)) (sym (ap (λ c. oldest_from c m) e))
        (named, first, (before_keep (used x) best _ ge first, rest))
]

-- What holds of the candidate and of every session holds of what the search finds.
oldest_from-All :
    (P : Str × ℕ → Type 0) (best : Str × ℕ) (m : Sessions)
    → best.0 ≢ []
    → P best
    → IsNamed m
    → All (λ x. P (used x)) m
    → P (oldest_from best m)
unfolding oldest_from
oldest_from-All P best [] b p n h = p
oldest_from-All P best (x ∷ m) b p n h = elim (older-cases best x b) [
  | inl (e, lt) ↦ rw e (oldest_from-All P (used x) m n.0 h.0 n.1 h.1)
  | inr (e, ge) ↦ rw e (oldest_from-All P best m b p n.1 h.1)
]

older-unnamed : (x : Str × EphemeralSession) → older ([], 0) x ≡ used x
unfolding older
older-unnamed (id, s) = rw (==_refl ⦃e = str_eq⦄ [])

pub oldest-All :
    (P : Str × ℕ → Type 0) (x : Str × EphemeralSession) (m : Sessions)
    → IsNamed (x ∷ m)
    → All (λ y. P (y.0, y.1.last_used)) (x ∷ m)
    → P (oldest (x ∷ m))
unfolding oldest oldest_from
oldest-All P x m n h =
    subst P (sym (ap (λ c. oldest_from c m) (older-unnamed x)))
      (oldest_from-All P (used x) m n.0 h.0 n.1 h.1)

-- What a round drops has an id.
pub oldest_named :
    (x : Str × EphemeralSession) (m : Sessions) → IsNamed (x ∷ m) → (oldest (x ∷ m)).0 ≢ []
oldest_named x m n = oldest-All (λ r. r.0 ≢ []) x m n n

-- A session of the pool, under its id and with its time, of which no session of the pool is before.
pub record IsLeast (m : Sessions) (r : Str × ℕ) : Type 0 where
  pub session : EphemeralSession
  pub held : Memᴰ (r.0, session) m
  pub timed : session.last_used ≡ r.1
  pub least : All (λ y. before (y.0, y.1.last_used) r ≡ false) m

abbrev Held : Sessions → Str × ℕ → Type 0
Held m r = (s : EphemeralSession) × Memᴰ (r.0, s) m × (s.last_used ≡ r.1)

all-Held :
    (m : Sessions) (n : Sessions)
    → ((y : Str × EphemeralSession) → Memᴰ y n → Memᴰ y m)
    → All (λ y. Held m (y.0, y.1.last_used)) n
all-Held m [] h = tt
all-Held m (y ∷ n) h = ((y.1, h y (head refl), refl), all-Held m n (λ z k. h z (tail k)))

-- In a pool whose sessions all have ids, and that has one, the session that a round drops is one of the
-- pool's, and no other was used before it, nor at the same time under a smaller id.
pub oldest-IsLeast :
    (x : Str × EphemeralSession) (m : Sessions) → IsNamed (x ∷ m) → IsLeast (x ∷ m) (oldest (x ∷ m))
unfolding oldest oldest_from
oldest-IsLeast x m n =
    let held = oldest-All (Held (x ∷ m)) x m n (all-Held (x ∷ m) (x ∷ m) (λ y k. k)) in
    let found = oldest_from-named (used x) m n.1 n.0 in
    record {
      session = held.0;
      held = held.1;
      timed = held.2;
      least =
          subst (λ (r : Str × ℕ). All (λ y. before (y.0, y.1.last_used) r ≡ false) (x ∷ m))
            (sym (ap (λ c. oldest_from c m) (older-unnamed x))) (found.1, found.2);
    }
