-- ===== src/Llm/Complete/Told.antt =====
-- router.go: what the caller of a turn is told of who answered it.
use wintermute.Prelude.{
  ◌≡◌, ◌≢◌, ap, ◌∙◌, refl, inl, inr, Bool, true, false, ◌||◌, Option, none, some, [], Result, ok,
  err, ◌==◌, arith, Bool-cases, ==_refl,
}
use wintermute.Prelude.Str.{Str, str_eq}
use wintermute.Prelude.Results.{ok_inj}
use wintermute.Llm.Message.{Request, Response}
use wintermute.Llm.Router.{Backend, Router, find_backend}
use wintermute.Llm.Complete.{
  Context, Failure, no_backend, provider_failed, Routed, backend_complete, default_model, routed_of,
  mark_fallback, after_first, complete_with, trim_error, after_failure, complete,
}

module _ {W : Type 0} where
  default_model-empty :
      (b : Backend W) (req : Request)
      → (default_model b (record req { model = [] })).model ≡ b.model
  unfolding default_model
  default_model-empty b req = rw (==_refl ⦃e = str_eq⦄ [])

  routed_of-ok :
      (b : Backend W) (req : Request) (resp : Result Str Response) {res : Routed}
      → routed_of b req resp ≡ ok res
      → (res.backend ≡ b.name)
        × (res.model ≡ req.model)
        × (res.fell_back_from ≡ [])
        × (resp ≡ ok res.response)
  unfolding routed_of
  routed_of-ok b req (ok resp) h = ground arith
  routed_of-ok b req (err e) h = cc

module _ {W : Type 0} (ctx : Context W) where
  complete_with-ok :
      (r : Router W) (b : Backend W) (req : Request) (fell_back : Bool) (w : W) {res : Routed}
      → (complete_with ctx r b req fell_back w).0 ≡ ok res
      → (res.backend ≡ b.name)
        × (res.model ≡ (default_model b req).model)
        × (res.fell_back_from ≡ [])
        × ((backend_complete b (default_model b req) w).0 ≡ ok res.response)
  unfolding complete_with
  complete_with-ok r b req fell_back w h = routed_of-ok b (default_model b req) _ h

  -- What the caller is told of an answer: which backend gave it, and, if that is the fallback, which
  -- one failed and why.
  pub data Told (r₁ r₂ r₃ : Router W) (backend : Str) (w : W) (req : Request)
      : Routed → Type 0 where
    by_selected :
        (b : Backend W) {res : Routed}
        → find_backend r₁ backend ≡ some b
        → (backend_complete b (default_model b req) w).0 ≡ ok res.response
        → res.backend ≡ b.name
        → res.model ≡ (default_model b req).model
        → res.fell_back_from ≡ []
        → Told r₁ r₂ r₃ backend w req res
    by_fallback :
        (b fb : Backend W) (e : Str) {res : Routed}
        → find_backend r₁ backend ≡ some b
        → (complete_with ctx r₁ b req false w).0 ≡ err e
        → ctx.cancelled (complete_with ctx r₁ b req false w).1 ≡ false
        → r₂.fallback ≢ []
        → r₂.fallback ≢ b.name
        → find_backend r₃ r₂.fallback ≡ some fb
        → (backend_complete fb
            (default_model fb (record req { model = [] }))
            (complete_with ctx r₁ b req false w).1).0
          ≡ ok res.response
        → res.backend ≡ fb.name
        → res.model ≡ fb.model
        → res.fell_back_from ≡ b.name
        → res.fallback_reason ≡ trim_error e
        → Told r₁ r₂ r₃ backend w req res

  mark_fallback-ok :
      (b fb : Backend W) (e : Str) (x : Result Str Routed × W) {res : Routed}
      → (mark_fallback ctx b fb e x).0 ≡ ok res
      → (inner : Routed) × (x.0 ≡ ok inner)
        × (res ≡ record inner { fell_back_from = b.name; fallback_reason = trim_error e })
  unfolding mark_fallback
  mark_fallback-ok b fb e (ok inner, w) h = (inner, refl, ground arith)
  mark_fallback-ok b fb e (err f, w) h = cc

  module _ (r₁ r₂ r₃ : Router W) (backend : Str) (req : Request) (w : W) where
    after_failure-Told :
        (b : Backend W) (e : Str) {res : Routed}
        → find_backend r₁ backend ≡ some b
        → (complete_with ctx r₁ b req false w).0 ≡ err e
        → (after_failure ctx r₂ r₃ b req e (complete_with ctx r₁ b req false w).1).0 ≡ ok res
        → Told r₁ r₂ r₃ backend w req res
    unfolding after_failure
    after_failure-Told b e {res} s f h = elim (Bool-cases (ctx.cancelled w')) [
      | inl c ↦ cc (rw c at h)
      | inr c ↦ elim (Bool-cases (r₂.fallback == [] || r₂.fallback == b.name)) [
        | inl n ↦ cc (rw (c, n) at h)
        | inr n ↦ found c (neither n) (find_backend r₃ r₂.fallback) refl (rw (c, n) at h)
      ]
    ]
      where
        w' : W
        w' = (complete_with ctx r₁ b req false w).1

        fallback_run : Backend W → Result Str Routed × W
        fallback_run fb = complete_with ctx r₃ fb (record req { model = [] }) true w'

        neither :
            (r₂.fallback == [] || r₂.fallback == b.name) ≡ false
            → (r₂.fallback ≢ []) × (r₂.fallback ≢ b.name)
        neither n = (
          λ e. ground (arith, n, (str_eq.test_iff r₂.fallback []).1 e),
          λ e. ground (arith, n, (str_eq.test_iff r₂.fallback b.name).1 e),
        )

        found :
            ctx.cancelled w' ≡ false
            → (r₂.fallback ≢ []) × (r₂.fallback ≢ b.name)
            → (o : Option (Backend W)) → find_backend r₃ r₂.fallback ≡ o
            → (elim o as (λ x. Result Failure Routed × W) [
              | none ↦ (err (provider_failed e), w')
              | some fb ↦ mark_fallback ctx b fb e (fallback_run fb)
            ]).0
              ≡ ok res
            → Told r₁ r₂ r₃ backend w req res
        found c n none q k = cc
        found c n (some fb) q k =
            let (inner, ran, same) = mark_fallback-ok b fb e (fallback_run fb) k in
            let (from, on, _, said) =
              complete_with-ok r₃ fb (record req { model = [] }) true w' ran in
            by_fallback b fb e s f c n.0 n.1 q (ground (arith, said, same)) (ground arith)
              (ground (arith, default_model-empty fb req)) (ground arith) (ground arith)

  -- An answer that the caller gets is what the selected backend said, with no fallback noted, or what the
  -- fallback said, on its default model: where one is configured and is not the selected backend, after
  -- that has failed and the turn was not cancelled; then the failed backend is named, with its error.
  pub complete-Told :
      (r₁ r₂ r₃ : Router W) (backend : Str) (req : Request) (w : W) {res : Routed}
      → (complete ctx r₁ r₂ r₃ backend req w).0 ≡ ok res
      → Told r₁ r₂ r₃ backend w req res
  unfolding complete
  complete-Told r₁ r₂ r₃ backend req w {res} h = selected (find_backend r₁ backend) refl h
    where
      first :
          (b : Backend W)
          → find_backend r₁ backend ≡ some b
          → (x : Result Str Routed) → (complete_with ctx r₁ b req false w).0 ≡ x
          → (after_first ctx r₂ r₃ b req (x, (complete_with ctx r₁ b req false w).1)).0 ≡ ok res
          → Told r₁ r₂ r₃ backend w req res
      first b s (ok inner) ran k =
          let (by, on, alone, said) = complete_with-ok r₁ b req false w ran in
          by_selected b s (said ∙ ap (λ (x : Routed). ok x.response) (ok_inj k)) (ground arith)
            (ground arith) (ground arith)
      first b s (err e) ran k = after_failure-Told r₁ r₂ r₃ backend req w b e s ran k

      selected :
          (o : Option (Backend W))
          → find_backend r₁ backend ≡ o
          → (elim o as (λ x. Result Failure Routed × W) [
            | none ↦ (err (no_backend backend), w)
            | some b ↦ after_first ctx r₂ r₃ b req (complete_with ctx r₁ b req false w)
          ]).0
            ≡ ok res
          → Told r₁ r₂ r₃ backend w req res
      selected none q k = cc
      selected (some b) q k = first b q (complete_with ctx r₁ b req false w).0 refl k
