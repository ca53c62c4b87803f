-- ===== src/Llm/Router/Replace.antt =====
-- router.go: a change of the backend set takes effect whole or not at all.
use mathlib.Core.List.{Perm, map-append, append-nil, append_assoc}
use wintermute.Prelude.{
  ◌≡◌, refl, sym, ap, subst, ◌∙◌, map, not, ◌&&◌, ◌≢◌, ◌⊎◌, inl, inr, true, false, none, List, [],
  ◌∷◌, ◌++◌, All, All-append, Result, ok, err, ◌==◌, arith, Bool-cases, ==_refl,
}
use wintermute.Prelude.Str.{Str, str_eq}
use wintermute.Prelude.Results.{ok_inj}
use wintermute.Prelude.Assoc.{
  Assoc, contains, insert, keys, HasDistinctKeys, insert-HasDistinctKeys, insert-eq-append,
  contains-insert,
}
use wintermute.Prelude.Sort.{sort_strings, IsSorted, sort_strings-IsSorted, sort_strings-perm}
use wintermute.Llm.Router.{
  Backend, Router, ReplaceError, first_name, chosen_default, keep_on_error, declare, install,
  checked, replace,
}

module _ {W : Type 0} where
  -- The backends that the loop has declared so far, with their names in order.
  record IsDeclared (d : Assoc Str (Backend W) × List Str) : Type 0 where
    listed : d.1 ≡ keys d.0
    named : All (λ e. e.1.name ≡ e.0) d.0
    distinct : HasDistinctKeys d.0
    no_unnamed : contains [] d.0 ≡ false

  -- A router that can serve: each backend stands under its own name, the default and the fallback
  -- are declared, and `order` lists the names, sorted.
  pub record IsServing (r : Router W) : Type 0 where
    pub default_known : contains r.def r.backends ≡ true
    pub fallback_known : (r.fallback ≡ []) ⊎ (contains r.fallback r.backends ≡ true)
    pub sorted : IsSorted r.order
    pub listed : Perm r.order (keys r.backends)
    pub named : All (λ e. e.1.name ≡ e.0) r.backends
    pub distinct : HasDistinctKeys r.backends
    pub no_unnamed : contains [] r.backends ≡ false

  -- What is installed: the backends that were given, in the order given and each under its name, the default that
  -- was named or else the first name in order, the fallback that was named, and the recorder as it was.
  pub record IsInstalled (r : Router W) (bs : List (Backend W)) (def fallback : Str) (r' : Router W)
      : Type 0 where
    pub all_given : r'.backends ≡ map (λ b. (b.name, b)) bs
    pub default_given : (def ≢ []) → r'.def ≡ def
    pub default_first : def ≡ [] → (rest : List Str) × (r'.order ≡ r'.def ∷ rest)
    pub fallback_given : r'.fallback ≡ fallback
    pub same_recorder : r'.recorder ≡ r.recorder

  abbrev WhenDeclared : Result ReplaceError (Assoc Str (Backend W) × List Str) → Type 0
  WhenDeclared (ok d) = IsDeclared d
  WhenDeclared (err e) = Unit

  insert-IsDeclared :
      (b : Backend W) (next : Assoc Str (Backend W)) (order : List Str)
      → (b.name == []) ≡ false
      → contains b.name next ≡ false
      → IsDeclared (next, order)
      → IsDeclared (insert b.name b next, order ++ b.name ∷ [])
  insert-IsDeclared b next order n c d = record {
    listed = rw (insert-eq-append b.name b next c, map-append, d.listed);
    named = rw (insert-eq-append b.name b next c) (All-append _ next _ d.named (refl, tt));
    distinct = insert-HasDistinctKeys b.name b next d.distinct;
    no_unnamed = rw contains-insert (ground (arith, d.no_unnamed));
  }

  declare-IsDeclared :
      (next : Assoc Str (Backend W)) (order : List Str) (bs : List (Backend W))
      → IsDeclared (next, order)
      → WhenDeclared (declare next order bs)
  unfolding declare
  declare-IsDeclared next order [] d = d
  declare-IsDeclared next order (b ∷ bs) d = elim (Bool-cases (b.name == [])) [
    | inl n ↦ rw n tt
    | inr n ↦ elim (Bool-cases (contains b.name next)) [
      | inl c ↦ rw (n, c) tt
      | inr c ↦
          rw (n, c)
            (declare-IsDeclared (insert b.name b next) (order ++ b.name ∷ []) bs
              (insert-IsDeclared b next order n c d))
    ]
  ]

  abbrev WhenServing : Result ReplaceError (Router W) → Type 0
  WhenServing (ok r) = IsServing r
  WhenServing (err e) = Unit

  install-IsServing :
      (r : Router W) (def fallback : Str) (d : Assoc Str (Backend W) × List Str)
      → IsDeclared d
      → WhenServing (install r def fallback d)
  unfolding install
  install-IsServing r def fallback (next, order) h =
      elim (Bool-cases (contains (chosen_default def (sort_strings order)) next)) [
        | inr missing ↦ rw missing tt
        | inl known ↦ rw known (elim (Bool-cases (fallback == [])) [
          | inl none_named ↦
              rw none_named (serving known (inl ((str_eq.test_iff fallback []).0 none_named)))
          | inr named ↦ rw named (elim (Bool-cases (contains fallback next)) [
            | inr missing ↦ rw missing tt
            | inl found ↦ rw found (serving known (inr found))
          ])
        ])
      ]
    where
      serving :
          contains (chosen_default def (sort_strings order)) next ≡ true
          → (fallback ≡ []) ⊎ (contains fallback next ≡ true)
          → IsServing (record r {
            backends = next;
            order = sort_strings order;
            def = chosen_default def (sort_strings order);
            fallback = fallback;
          })
      serving known f = record {
        default_known = known;
        fallback_known = f;
        sorted = sort_strings-IsSorted order;
        listed = rw (← h.listed) (sort_strings-perm order);
        named = h.named;
        distinct = h.distinct;
        no_unnamed = h.no_unnamed;
      }

  checked-IsServing :
      (r : Router W) (bs : List (Backend W)) (def fallback : Str)
      → WhenServing (checked r bs def fallback)
  unfolding checked
  checked-IsServing r [] def fallback = tt
  checked-IsServing r (b ∷ bs) def fallback = by_declared (declare [] [] (b ∷ bs)) (
      declare-IsDeclared [] [] (b ∷ bs)
        (record { listed = refl; named = tt; distinct = tt; no_unnamed = refl }))
    where
      by_declared :
          (d : Result ReplaceError (Assoc Str (Backend W) × List Str))
          → WhenDeclared d
          → WhenServing (elim d [ ok e ↦ install r def fallback e | err e ↦ err e ])
      by_declared (ok d) h = install-IsServing r def fallback d h
      by_declared (err e) h = tt

  declare-given :
      (next : Assoc Str (Backend W)) (order : List Str) (bs : List (Backend W))
      (d : Assoc Str (Backend W) × List Str)
      → declare next order bs ≡ ok d
      → d.0 ≡ next ++ map (λ b. (b.name, b)) bs
  unfolding declare
  declare-given next order [] d = λ h. sym (ap (λ x. x.0) (ok_inj h)) ∙ sym (append-nil next)
  declare-given next order (b ∷ bs) d = elim (Bool-cases (b.name == [])) [
    | inl n ↦ rw (n, declare) (λ h. ground arith)
    | inr n ↦ elim (Bool-cases (contains b.name next)) [
      | inl c ↦ rw (n, c, declare) (λ h. ground arith)
      | inr c ↦
          rw (n, c, declare)
            (λ h.
              declare-given (insert b.name b next) (order ++ b.name ∷ []) bs d h
              ∙ ap (λ x. x ++ map (λ (y : Backend W). (y.name, y)) bs)
                  (insert-eq-append b.name b next c)
              ∙ append_assoc next ((b.name, b) ∷ []) (map (λ (y : Backend W). (y.name, y)) bs))
    ]
  ]

  abbrev routed_by : Router W → Str → Str → Assoc Str (Backend W) → List Str → Router W
  routed_by r def fallback next order = record r {
    backends = next;
    order = sort_strings order;
    def = chosen_default def (sort_strings order);
    fallback = fallback;
  }

  install-given :
      (r : Router W) (def fallback : Str) (next : Assoc Str (Backend W)) (order : List Str)
      (r' : Router W)
      → install r def fallback (next, order) ≡ ok r'
      → routed_by r def fallback next order ≡ r'
  unfolding install
  install-given r def fallback next order r' =
      elim (Bool-cases (contains (chosen_default def (sort_strings order)) next)) [
        | inr missing ↦ rw (missing, install) (λ h. ground arith)
        | inl known ↦ elim (Bool-cases (not (fallback == []) && not (contains fallback next))) [
          | inl missing ↦ rw (known, missing, install) (λ h. ground arith)
          | inr found ↦ rw (known, found, install) (λ h. ok_inj h)
        ]
      ]

  first_of :
      (def : Str) (order : List Str) (next : Assoc Str (Backend W))
      → def ≡ []
      → contains (chosen_default def order) next ≡ true
      → contains [] next ≡ false
      → (rest : List Str) × (order ≡ chosen_default def order ∷ rest)
  unfolding chosen_default
  first_of def order next e k n =
      subst (λ x. contains x next ≡ true → (rest : List Str) × (order ≡ x ∷ rest))
        (sym (ap (λ d. chosen_default d order) e ∙ rw (==_refl ⦃e = str_eq⦄ []) refl)) (go order) k
    where
      go :
          (o : List Str)
          → contains (first_name o) next ≡ true
          → (rest : List Str) × (o ≡ first_name o ∷ rest)
      go [] k = ground (arith, k, n)
      go (x ∷ xs) k = (xs, refl)

  install-IsInstalled :
      (r : Router W) (bs : List (Backend W)) (def fallback : Str)
      (d : Assoc Str (Backend W) × List Str) (r' : Router W)
      → declare [] [] bs ≡ ok d
      → install r def fallback d ≡ ok r'
      → IsServing r'
      → IsInstalled r bs def fallback r'
  unfolding chosen_default
  install-IsInstalled r bs def fallback d r' q h s =
      let given = install-given r def fallback d.0 d.1 r' h in
      let order = ap (λ x. x.order) given in
      let default = ap (λ x. x.def) given in
      record {
        all_given = sym (ap (λ x. x.backends) given) ∙ declare-given [] [] bs d q;
        default_given = λ n. sym default ∙ rw (ne_nil def n) refl;
        default_first = λ e.
            subst (λ x. (rest : List Str) × (x.order ≡ x.def ∷ rest)) given
              (first_of def (sort_strings d.1) d.0 e
                (ap (λ x. contains x.def x.backends) given ∙ s.default_known)
                (ap (λ x. contains [] x.backends) given ∙ s.no_unnamed));
        fallback_given = sym (ap (λ x. x.fallback) given);
        same_recorder = sym (ap (λ x. x.recorder) given);
      }
    where
      ne_nil : (t : Str) → t ≢ [] → (t == []) ≡ false
      ne_nil [] n = absurd (n refl)
      ne_nil (c ∷ cs) n = ground (arith, str_eq.test_iff (c ∷ cs) [])

  checked-IsInstalled :
      (r : Router W) (bs : List (Backend W)) (def fallback : Str) (r' : Router W)
      → checked r bs def fallback ≡ ok r'
      → IsServing r'
      → IsInstalled r bs def fallback r'
  unfolding checked
  checked-IsInstalled r [] def fallback r' h s = ground arith
  checked-IsInstalled r (b ∷ bs) def fallback r' h s = by_declared (declare [] [] (b ∷ bs)) refl h
    where
      by_declared :
          (x : Result ReplaceError (Assoc Str (Backend W) × List Str))
          → declare [] [] (b ∷ bs) ≡ x
          → (elim x [ ok e ↦ install r def fallback e | err e ↦ err e ]) ≡ ok r'
          → IsInstalled r (b ∷ bs) def fallback r'
      by_declared (ok d) q k = install-IsInstalled r (b ∷ bs) def fallback d r' q k s
      by_declared (err e) q k = ground arith

  -- A change of the backend set is refused and leaves the router as it was, or is installed whole: then the
  -- router has the backends that were given, all of them and no others, the default that was named or else the
  -- first name in order, and the fallback that was named, and it can serve: the default and the fallback are
  -- declared, each backend is under its own name, no name comes twice, and the names are listed in order.
  pub replace-IsServing :
      (r : Router W) (bs : List (Backend W)) (def fallback : Str)
      → let (r', e) = replace r bs def fallback in
        ((e ≢ none) × (r' ≡ r)) ⊎ ((e ≡ none) × IsServing r' × IsInstalled r bs def fallback r')
  unfolding replace
  replace-IsServing r bs def fallback =
      by_checked (checked r bs def fallback) refl (checked-IsServing r bs def fallback)
    where
      by_checked :
          (c : Result ReplaceError (Router W))
          → checked r bs def fallback ≡ c
          → WhenServing c
          → (((keep_on_error r c).1 ≢ none) × ((keep_on_error r c).0 ≡ r))
            ⊎ (((keep_on_error r c).1 ≡ none)
                × IsServing (keep_on_error r c).0
                × IsInstalled r bs def fallback (keep_on_error r c).0)
      by_checked (ok r') q h = inr (refl, h, checked-IsInstalled r bs def fallback r' q h)
      by_checked (err e) q h = inl (λ q. cc, refl)
