-- ===== src/Tool/Registry/Laws.antt =====
-- The registry: what is registered under a name, whatever was registered before.
use wintermute.Prelude.{
  ◌≡◌, ◌≢◌, refl, sym, ap, ◌∙◌, subst, ◌⊎◌, inl, inr, true, false, not, Option, none, some, List,
  [], ◌∷◌, Result, ok, err, refuse_if, arith, Bool-cases, ◌==◌, ne_of_beq,
}
use wintermute.Prelude.Str.{Str, str_eq}
use wintermute.Prelude.Assoc.{Assoc, lookup, contains, insert, lookup-insert_self, lookup-insert_ne}
use wintermute.Prelude.Results.{bind-ok, seq-ok, refuse_if-ok, ok_inj, Result-cases}
use wintermute.Tool.{Side, server, client, Definition, Handler, valid}
use wintermute.Tool.Registry.{
  Registry, RegisterError, new_registry, register_def, register, register_client,
}

some_inj {ℓ} : {A : Type ℓ} {a b : A} → some a ≡ some b → a ≡ b
some_inj h = ground arith

some-none {ℓ} : {A : Type ℓ} {a : A} → some a ≢ none
some-none h = ground arith

pub data Registration (W : Type 0) : Type 0 where
  on_server : Definition → Option (Handler W) → Registration W
  on_client : Definition → Registration W

contains-lookup :
    (name : Str) (m : Assoc Str Definition) → contains name m ≡ false → lookup name m ≡ none
contains-lookup name [] h = refl
contains-lookup name (x ∷ m) h = ground (arith, contains-lookup name m)

module _ {W : Type 0} where
  -- A definition stands under its name, with a known risk; it is the client's, or the server's and
  -- then has a handler.
  pub record IsListed (r : Registry W) (name : Str) (d : Definition) : Type 0 where
    pub named : d.name ≡ name
    pub unempty : name ≢ []
    pub risk_known : valid d.risk ≡ true
    pub handled :
        ((d.side ≡ client) × (lookup name r.handlers ≡ none))
        ⊎ ((d.side ≡ server) × ((h : Handler W) × (lookup name r.handlers ≡ some h)))

  pub record IsRegistry (r : Registry W) : Type 0 where
    pub listed : (name : Str) (d : Definition) → lookup name r.defs ≡ some d → IsListed r name d
    pub unlisted : (name : Str) → lookup name r.defs ≡ none → lookup name r.handlers ≡ none

  abbrev kept : Registry W → Result RegisterError (Registry W) → Registry W
  kept r (ok r') = r'
  kept r (err e) = r

  -- A refused registration leaves the registry as it was.
  unfoldable pub enter : Registration W → Registry W → Registry W
  enter (on_server def h) r = kept r (register r def h)
  enter (on_client def) r = kept r (register_client r def)

  unfoldable pub enter_all : List (Registration W) → Registry W → Registry W
  enter_all [] r = r
  enter_all (x ∷ xs) r = enter_all xs (enter x r)

  new_registry-IsRegistry : IsRegistry new_registry
  unfolding new_registry
  new_registry-IsRegistry = record { listed = λ name d h. cc h; unlisted = λ name h. refl }

  -- What a registration that is taken has checked, and what it does.
  pub register_def-ok :
      (r r' : Registry W) (def : Definition)
      → register_def r def ≡ ok r'
      → (def.name ≢ [])
        × (valid def.risk ≡ true)
        × (lookup def.name r.defs ≡ none)
        × ((d : Definition) × (d.name ≡ def.name)
            × (d.risk ≡ def.risk)
            × (d.side ≡ def.side)
            × (r' ≡ record r { defs = insert def.name d r.defs }))
  unfolding register_def
  register_def-ok r r' def h =
      let last = seq-ok _ _ r' h in
      let third = seq-ok _ (refuse_if (contains def.name r.defs) _) tt last.0 in
      let second = seq-ok _ (refuse_if (not (valid def.risk)) _) tt third.0 in
      (
        ne_of_beq def.name [] (refuse_if-ok _ _ second.0),
        ground (arith, refuse_if-ok _ _ second.1),
        contains-lookup def.name r.defs (refuse_if-ok _ _ third.1),
        (_, refl, refl, refl, sym (ok_inj last.1)),
      )

  -- Who runs a tool of this side, by what the handlers have under its name.
  abbrev IsHandled : Side → Option (Handler W) → Type 0
  IsHandled side o =
      ((side ≡ client) × (o ≡ none)) ⊎ ((side ≡ server) × ((h : Handler W) × (o ≡ some h)))

  -- A name that is free is given a definition, and the handlers are left or get one under that name.
  grown :
      (r r' : Registry W) (k : Str) (d : Definition)
      → IsRegistry r
      → IsListed r' k d
      → r'.defs ≡ insert k d r.defs
      → ((n : Str) → k ≢ n → lookup n r'.handlers ≡ lookup n r.handlers)
      → IsRegistry r'
  grown r r' k d i new grows same = record {
    listed = λ name d' q. elim (Bool-cases (k == name)) [
      | inl here ↦
          let kn = (str_eq.test_iff k name).0 here in
          subst (λ x. IsListed r' x d') kn
            (subst (IsListed r' k) (some_inj (sym at_new ∙ ap (λ x. lookup x r'.defs) kn ∙ q)) new)
      | inr other ↦
          let ne = ne_of_beq k name other in
          let old = i.listed name d' (sym (at_old name ne) ∙ q) in
          record {
            named = old.named;
            unempty = old.unempty;
            risk_known = old.risk_known;
            handled = subst (IsHandled d'.side) (sym (same name ne)) old.handled;
          }
    ];
    unlisted = λ name q. elim (Bool-cases (k == name)) [
      | inl here ↦ absurd (
          some-none (sym at_new ∙ ap (λ x. lookup x r'.defs) ((str_eq.test_iff k name).0 here) ∙ q))
      | inr other ↦
          let ne = ne_of_beq k name other in
          same name ne ∙ i.unlisted name (sym (at_old name ne) ∙ q)
    ];
  }
    where
      at_new : lookup k r'.defs ≡ some d
      at_new = ap (lookup k) grows ∙ lookup-insert_self k d r.defs

      at_old : (name : Str) → k ≢ name → lookup name r'.defs ≡ lookup name r.defs
      at_old name ne = ap (lookup name) grows ∙ lookup-insert_ne name k d r.defs ne

  register_client-IsRegistry :
      (r r' : Registry W) (def : Definition)
      → IsRegistry r
      → register_client r def ≡ ok r'
      → IsRegistry r'
  unfolding register_client
  register_client-IsRegistry r r' def i h =
      let (unempty, risk, free, (d, named, same_risk, side, is)) =
        register_def-ok r r' (record def { side = client }) h in
      grown r r' def.name d i
        (record {
          named = named;
          unempty = unempty;
          risk_known = ap valid same_risk ∙ risk;
          handled = inl (
            side,
            ap (λ (x : Registry W). lookup def.name x.handlers) is ∙ i.unlisted def.name free,
          );
        })
        (ap (λ (x : Registry W). x.defs) is)
        (λ n ne. ap (λ (x : Registry W). lookup n x.handlers) is)

  register-IsRegistry :
      (r r' : Registry W) (def : Definition) (h : Option (Handler W))
      → IsRegistry r
      → register r def h ≡ ok r'
      → IsRegistry r'
  unfolding register
  register-IsRegistry r r' def none i q = ground arith
  register-IsRegistry r r' def (some h) i q =
      let (r₁, taken, done) = bind-ok (register_def r (record def { side = server })) _ r' q in
      let (unempty, risk, free, (d, named, same_risk, side, is)) =
        register_def-ok r r₁ (record def { side = server }) taken in
      let is' = sym (ok_inj done) in
      let handlers_are =
        ap (λ (x : Registry W). x.handlers) is'
        ∙ ap (λ (x : Registry W). insert def.name h x.handlers) is in
      grown r r' def.name d i
        (record {
          named = named;
          unempty = unempty;
          risk_known = ap valid same_risk ∙ risk;
          handled = inr (
            side,
            (h, ap (lookup def.name) handlers_are ∙ lookup-insert_self def.name h r.handlers),
          );
        })
        (ap (λ (x : Registry W). x.defs) is' ∙ ap (λ (x : Registry W). x.defs) is)
        (λ n ne. ap (lookup n) handlers_are ∙ lookup-insert_ne n def.name h r.handlers ne)

  enter-IsRegistry : (x : Registration W) (r : Registry W) → IsRegistry r → IsRegistry (enter x r)
  unfolding enter
  enter-IsRegistry (on_server def h) r i = elim (Result-cases (register r def h)) [
    | inl taken ↦ rw (taken.1) (register-IsRegistry r taken.0 def h i taken.1)
    | inr refused ↦ rw (refused.1) i
  ]
  enter-IsRegistry (on_client def) r i = elim (Result-cases (register_client r def)) [
    | inl taken ↦ rw (taken.1) (register_client-IsRegistry r taken.0 def i taken.1)
    | inr refused ↦ rw (refused.1) i
  ]

  pub enter_all-IsRegistry_from :
      (xs : List (Registration W)) (r : Registry W) → IsRegistry r → IsRegistry (enter_all xs r)
  unfolding enter_all
  enter_all-IsRegistry_from [] r i = i
  enter_all-IsRegistry_from (x ∷ xs) r i =
      enter_all-IsRegistry_from xs (enter x r) (enter-IsRegistry x r i)

  -- Whatever is registered, in any order and refused or not, each definition of the registry stands under
  -- its name, which is not empty, with a known risk; the server's have a handler and the client's have
  -- none, and there is no handler without a definition.
  pub enter_all-IsRegistry : (xs : List (Registration W)) → IsRegistry (enter_all xs new_registry)
  enter_all-IsRegistry xs = enter_all-IsRegistry_from xs new_registry new_registry-IsRegistry
