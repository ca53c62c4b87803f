-- ===== src/Prelude/Assoc.antt =====
-- Go maps as association lists with distinct keys: `m[k]`, `m[k] = v`, `delete(m, k)`, `len(m)`.
-- An insertion replaces a present key in place and adds an absent one at the end.
use wintermute.Prelude.{
  ◌≡◌, ◌≢◌, refl, Bool, true, false, Option, none, some, List, [], ◌∷◌, arith, Eq, ◌==◌,
  if◌then◌else◌, ◌++◌, map, All, Bool-cases, inl, inr, subst, length, All-imp, if_intro, ==_refl,
  suc, ◌≤◌,
}

abbrev pub Assoc {ℓ κ} : Type ℓ → Type κ → Type (ℓ ⊔ κ)
Assoc K V = List (K × V)

abbrev pub keys {ℓ κ} : {K : Type ℓ} {V : Type κ} → Assoc K V → List K
keys m = map (λ e. e.0) m

module _ {ℓ κ} {K : Type ℓ} {V : Type κ} ⦃e : Eq K⦄ where
  abbrev pub lookup : K → Assoc K V → Option V
  lookup k [] = none
  lookup k ((i, w) ∷ rest) = if i == k then some w else lookup k rest

  abbrev pub contains : K → Assoc K V → Bool
  contains k [] = false
  contains k ((j, v) ∷ m) = if j == k then true else contains k m

  abbrev pub insert : K → V → Assoc K V → Assoc K V
  insert k v [] = (k, v) ∷ []
  insert k v ((i, old) ∷ rest) = if i == k then (i, v) ∷ rest else (i, old) ∷ insert k v rest

  abbrev pub erase : K → Assoc K V → Assoc K V
  erase k [] = []
  erase k ((j, w) ∷ m) = if j == k then m else (j, w) ∷ erase k m

  -- No key stands twice.
  abbrev pub HasDistinctKeys : Assoc K V → Type 0
  HasDistinctKeys [] = Unit
  HasDistinctKeys ((k, v) ∷ m) = (contains k m ≡ false) × HasDistinctKeys m

  pub lookup-insert_self : (k : K) (v : V) (m : Assoc K V) → lookup k (insert k v m) ≡ some v
  lookup-insert_self k v [] = ground (arith, e.test_iff k k)
  lookup-insert_self k v ((j, w) ∷ m) = ground (arith, e.test_iff j k, lookup-insert_self k v m)

  pub lookup-insert_ne :
      (j k : K) (v : V) (m : Assoc K V) → k ≢ j → lookup j (insert k v m) ≡ lookup j m
  lookup-insert_ne j k v [] h = ground (arith, e.test_iff k j)
  lookup-insert_ne j k v ((i, w) ∷ m) h =
      ground (arith, e.test_iff i j, e.test_iff i k, lookup-insert_ne j k v m h)

  pub contains-insert :
      (j k : K) (v : V) (m : Assoc K V)
      → contains j (insert k v m) ≡ (if k == j then true else contains j m)
  contains-insert j k v [] = refl
  contains-insert j k v ((i, w) ∷ m) =
      ground (arith, e.test_iff i j, e.test_iff i k, e.test_iff k j, contains-insert j k v m)

  pub insert-HasDistinctKeys :
      (k : K) (v : V) (m : Assoc K V) → HasDistinctKeys m → HasDistinctKeys (insert k v m)
  insert-HasDistinctKeys k v [] h = (refl, tt)
  insert-HasDistinctKeys k v ((j, w) ∷ m) h = ground (
    arith,
    e.test_iff j k,
    e.test_iff k j,
    contains-insert j k v m,
    insert-HasDistinctKeys k v m h.1,
  )

  pub contains-erase :
      (j k : K) (m : Assoc K V) → contains j m ≡ false → contains j (erase k m) ≡ false
  contains-erase j k [] h = refl
  contains-erase j k ((i, w) ∷ m) h = ground (arith, contains-erase j k m)

  pub erase-HasDistinctKeys :
      (k : K) (m : Assoc K V) → HasDistinctKeys m → HasDistinctKeys (erase k m)
  erase-HasDistinctKeys k [] h = tt
  erase-HasDistinctKeys k ((j, w) ∷ m) h =
      ground (arith, contains-erase j k m h.0, erase-HasDistinctKeys k m h.1)

  pub insert-eq-append :
      (k : K) (v : V) (m : Assoc K V) → contains k m ≡ false → insert k v m ≡ m ++ (k, v) ∷ []
  insert-eq-append k v [] h = refl
  insert-eq-append k v ((j, w) ∷ m) h = ground (arith, insert-eq-append k v m)

  pub lookup-eq-some :
      (k : K) (m : Assoc K V) → contains k m ≡ true → (v : V) × (lookup k m ≡ some v)
  lookup-eq-some k [] h = cc
  lookup-eq-some k ((j, w) ∷ m) h = elim (Bool-cases (j == k)) [
    | inl same ↦ (w, rw same)
    | inr other ↦ rw other (lookup-eq-some k m (rw other at h))
  ]

  -- What holds of every entry holds of the one that is found.
  pub lookup-All {μ} :
      (P : K × V → Type μ) (k : K) (m : Assoc K V) {v : V}
      → All P m
      → lookup k m ≡ some v
      → P (k, v)
  lookup-All P k [] h found = cc
  lookup-All P k ((j, w) ∷ m) {v} h found = elim (Bool-cases (j == k)) [
    | inl same ↦ subst P (here same) h.0
    | inr other ↦ lookup-All P k m h.1 (rw other at found)
  ]
    where
      here : (j == k) ≡ true → ◌≡◌ {A = K × V} (j, w) (k, v)
      here same = ground (arith, e.test_iff j k)

  pub lookup-erase_ne : (j k : K) (m : Assoc K V) → k ≢ j → lookup j (erase k m) ≡ lookup j m
  lookup-erase_ne j k [] h = refl
  lookup-erase_ne j k ((i, w) ∷ m) h =
      ground (arith, e.test_iff i j, e.test_iff i k, lookup-erase_ne j k m h)

  pub length-erase :
      (k : K) (m : Assoc K V) → contains k m ≡ true → suc (length (erase k m)) ≡ length m
  length-erase k [] h = cc
  length-erase k ((j, w) ∷ m) h = ground (arith, length-erase k m)

  pub length-erase-le : (k : K) (m : Assoc K V) → length (erase k m) ≤ length m
  length-erase-le k [] = omega arith
  length-erase-le k ((j, w) ∷ m) = ground (arith, length-erase-le k m)

  pub length-insert_present :
      (k : K) (v : V) (m : Assoc K V) {w : V}
      → lookup k m ≡ some w
      → length (insert k v m) ≡ length m
  length-insert_present k v [] h = cc
  length-insert_present k v ((j, w) ∷ m) {w = u} h =
      ground (arith, length-insert_present k v m {w = u})

  -- Predicates on the entries.
  pub erase-All {μ} : (P : K × V → Type μ) (k : K) (m : Assoc K V) → All P m → All P (erase k m)
  erase-All P k [] h = tt
  erase-All P k ((j, w) ∷ m) h =
      if_intro (All P) (j == k) {x = m} {y = (j, w) ∷ erase k m} h.1 (h.0, erase-All P k m h.1)

  pub insert-All {μ} :
      (P : K × V → Type μ) (k : K) (v : V) (m : Assoc K V)
      → ((j : K) → (j == k) ≡ true → P (j, v))
      → All P m
      → All P (insert k v m)
  insert-All P k v [] p h = (p k (==_refl k), tt)
  insert-All P k v ((j, w) ∷ m) p h = elim (Bool-cases (j == k)) [
    | inl same ↦ rw same (p j same, h.1)
    | inr other ↦ rw other (h.0, insert-All P k v m p h.1)
  ]

  pub contains_self : (m : Assoc K V) → All (λ x. contains x.0 m ≡ true) m
  contains_self [] = tt
  contains_self ((j, w) ∷ m) =
      (rw (==_refl j), All-imp _ _ (λ x h. weaken x.0 h) m (contains_self m))
    where
      weaken : (k : K) → contains k m ≡ true → contains k ((j, w) ∷ m) ≡ true
      weaken k h = ground (arith, h)
