-- ===== src/Llm/Complete/Laws.antt =====
-- router.go: which backends a turn reaches, and what the caller is told of it.
use wintermute.Prelude.{
  ◌-◌, ◌≡◌, ◌≢◌, refl, inl, inr, Bool, true, false, Option, none, some, [], Result, ok, err, ◌==◌,
  Bool-cases, if_intro, ne_of_beq,
}
use wintermute.Prelude.Str.{Str, str_eq}
use wintermute.Llm.Message.{Request}
use wintermute.Llm.Router.{Sample, Backend, Router, find_backend}
use wintermute.Llm.Complete.{
  Context, Failure, no_backend, provider_failed, Routed, default_model, backend_complete,
  record_sample, sample_of, mark_fallback, after_first, complete_with, after_failure, complete,
}

module _ {W : Type 0} (ctx : Context W) where
  -- A property of the world that a backend's calls keep, and the samples of the recorder.
  abbrev pub Keeps : (W → Type 0) → Backend W → Type 0
  Keeps I b = (req : Request) (w : W) → I w → I (b.provider req w).1

  abbrev pub RecorderKeeps : (W → Type 0) → Router W → Type 0
  RecorderKeeps I r = (s : Sample) (w : W) → I w → I (record_sample r s w)

  complete_with-keeps :
      (I : W → Type 0) (r : Router W) (b : Backend W) (req : Request) (fell_back : Bool) (w : W)
      → Keeps I b
      → RecorderKeeps I r
      → I w
      → I (complete_with ctx r b req fell_back w).1
  unfolding complete_with backend_complete
  complete_with-keeps I r b req fell_back w k s h =
      let (resp, w') = backend_complete b (default_model b req) w in
      let kept = k (default_model b (default_model b req)) w h in
      let sample = sample_of b (default_model b req) resp (ctx.now w' - ctx.now w) fell_back in
      if_intro I (ctx.cancelled w') kept (s sample w' kept)

  after_failure-keeps :
      (I : W → Type 0) (r₂ r₃ : Router W) (b : Backend W) (req : Request) (e : Str) (w : W)
      → ((fb : Backend W) → find_backend r₃ r₂.fallback ≡ some fb → r₂.fallback ≢ [] → Keeps I fb)
      → RecorderKeeps I r₃
      → I w
      → I (after_failure ctx r₂ r₃ b req e w).1
  unfolding after_failure
  after_failure-keeps I r₂ r₃ b req e w k s h = elim (Bool-cases (ctx.cancelled w)) [
    | inl c ↦ rw c h
    | inr c ↦ rw c (elim (Bool-cases (r₂.fallback == [])) [
      | inl n ↦ rw n h
      | inr n ↦ rw n (
          if_intro (λ (x : Result Failure Routed × W). I x.1) (r₂.fallback == b.name) h
            (found (find_backend r₃ r₂.fallback) refl (ne_of_beq _ _ n)))
    ])
  ]
    where
      marked :
          (fb : Backend W) (x : Result Str Routed × W) → I x.1 → I (mark_fallback ctx b fb e x).1
      marked fb (ok res, w) h = h
      marked fb (err fe, w) h = h

      found :
          (o : Option (Backend W))
          → find_backend r₃ r₂.fallback ≡ o
          → r₂.fallback ≢ []
          → I
              (elim o as (λ x. Result Failure Routed × W) [
                | none ↦ (err (provider_failed e), w)
                | some fb ↦
                    mark_fallback ctx b fb e
                      (complete_with ctx r₃ fb (record req { model = [] }) true w)
              ]).1
      found none e' n = h
      found (some fb) e' n =
          marked fb _
            (complete_with-keeps I r₃ fb (record req { model = [] }) true w (k fb e' n) s h)

  -- A turn reaches no backend but the one that it selects and the fallback that is configured: what
  -- the calls of these two keep, the turn keeps, whatever the calls of the other backends do.
  pub complete-keeps :
      (I : W → Type 0) (r₁ r₂ r₃ : Router W) (backend : Str) (req : Request) (w : W)
      → ((b : Backend W) → find_backend r₁ backend ≡ some b → Keeps I b)
      → ((b : Backend W) → find_backend r₃ r₂.fallback ≡ some b → r₂.fallback ≢ [] → Keeps I b)
      → RecorderKeeps I r₁
      → RecorderKeeps I r₃
      → I w
      → I (complete ctx r₁ r₂ r₃ backend req w).1
  unfolding complete
  complete-keeps I r₁ r₂ r₃ backend req w k₁ k₃ s₁ s₃ h = selected (find_backend r₁ backend) refl
    where
      first :
          (b : Backend W) (x : Result Str Routed × W) → I x.1 → I (after_first ctx r₂ r₃ b req x).1
      first b (ok res, w') h' = h'
      first b (err e, w') h' = after_failure-keeps I r₂ r₃ b req e w' k₃ s₃ h'

      selected :
          (o : Option (Backend W))
          → find_backend r₁ backend ≡ o
          → I
              (elim o as (λ x. Result Failure Routed × W) [
                | none ↦ (err (no_backend backend), w)
                | some b ↦ after_first ctx r₂ r₃ b req (complete_with ctx r₁ b req false w)
              ]).1
      selected none e = h
      selected (some b) e = first b _ (complete_with-keeps I r₁ b req false w (k₁ b e) s₁ h)
