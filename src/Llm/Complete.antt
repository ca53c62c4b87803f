-- ===== src/Llm/Complete.antt =====
-- internal/llm/router.go: `Complete`, `CompleteOn` and the measured call below both. The error texts
-- are kept apart as constructors; the text that `trimError` shortens is the provider's.
pub mod Laws
pub mod Told
use wintermute.Prelude.{
  ℕ, ◌-◌, Bool, true, false, ◌||◌, Option, none, some, List, [], ◌∷◌, ◌++◌, Result, ok, err, ◌==◌,
  if◌then◌else◌, ltb, length, take,
}
use wintermute.Prelude.Str.{Str, str_eq, trim_space}
use wintermute.Llm.Message.{Request, Response}
use wintermute.Llm.Router.{Sample, Backend, Router, find_backend}

-- The context of a turn and the clock.
pub record Context (W : Type 0) : Type 0 where
  pub cancelled : W → Bool
  pub now : W → ℕ

pub data Failure : Type 0 where
  no_backend : Str → Failure
  provider_failed : Str → Failure
  fallback_failed : Str → Str → Str → Failure → Failure

pub record Routed : Type 0 where
  pub response : Response
  pub backend : Str
  pub model : Str
  pub fell_back_from : Str
  pub fallback_reason : Str

module _ {W : Type 0} where
  -- `Backend.Complete`
  unfoldable pub default_model : Backend W → Request → Request
  default_model b req = if req.model == [] then record req { model = b.model } else req

  unfoldable pub backend_complete : Backend W → Request → W → Result Str Response × W
  backend_complete b req w = b.provider (default_model b req) w

  unfoldable pub record_sample : Router W → Sample → W → W
  record_sample r s w = elim r.recorder [ none ↦ w | some rec ↦ rec s w ]

  sample_of : Backend W → Request → Result Str Response → ℕ → Bool → Sample
  sample_of b req (ok resp) elapsed fell_back = record {
    backend = b.name;
    model = req.model;
    prompt_tokens = resp.usage.prompt_tokens;
    completion_tokens = resp.usage.completion_tokens;
    duration = elapsed;
    failed = false;
    fell_back = fell_back;
  }
  sample_of b req (err e) elapsed fell_back = record {
    backend = b.name;
    model = req.model;
    prompt_tokens = 0;
    completion_tokens = 0;
    duration = elapsed;
    failed = true;
    fell_back = fell_back;
  }

  routed_of : Backend W → Request → Result Str Response → Result Str Routed
  routed_of b req (ok resp) = ok (record {
    response = resp;
    backend = b.name;
    model = req.model;
    fell_back_from = [];
    fallback_reason = [];
  })
  routed_of b req (err e) = err e

  -- The unexported `complete`.
  unfoldable pub complete_with :
      Context W → Router W → Backend W → Request → Bool → W → Result Str Routed × W
  unfolding sample_of routed_of
  complete_with ctx r b req fell_back w =
      let req' = default_model b req in
      let (resp, w') = backend_complete b req' w in
      let sample = sample_of b req' resp (ctx.now w' - ctx.now w) fell_back in
      (routed_of b req' resp, if ctx.cancelled w' then w' else record_sample r sample w')

-- The first 200 bytes, then an ellipsis.
unfoldable pub trim_error : Str → Str
trim_error text =
    let s = trim_space text in
    if ltb 200 (length s) then take 200 s ++ 0xe2 ∷ 0x80 ∷ 0xa6 ∷ [] else s

module _ {W : Type 0} (ctx : Context W) where
  -- Behind a failed fallback the first failure is reported with it.
  mark_fallback : Backend W → Backend W → Str → Result Str Routed × W → Result Failure Routed × W
  mark_fallback b fb e (ok res, w) =
      (ok (record res { fell_back_from = b.name; fallback_reason = trim_error e }), w)
  mark_fallback b fb e (err fe, w) =
      (err (fallback_failed b.name e fb.name (provider_failed fe)), w)

  -- What `Complete` does once the selected backend has failed with the text `e`. The fallback's name
  -- and the fallback itself are read from the routers `r₂` and `r₃`.
  unfoldable pub after_failure :
      Router W → Router W → Backend W → Request → Str → W → Result Failure Routed × W
  unfolding mark_fallback
  after_failure r₂ r₃ b req e w =
      if ctx.cancelled w
      then (err (provider_failed e), w)
      else if r₂.fallback == [] || r₂.fallback == b.name
      then (err (provider_failed e), w)
      else (elim (find_backend r₃ r₂.fallback) [
        | none ↦ (err (provider_failed e), w)
        | some fb ↦
            mark_fallback b fb e (complete_with ctx r₃ fb (record req { model = [] }) true w)
      ])

  after_first :
      Router W → Router W → Backend W → Request → Result Str Routed × W → Result Failure Routed × W
  unfolding after_failure
  after_first r₂ r₃ b req (ok res, w) = (ok res, w)
  after_first r₂ r₃ b req (err e, w) = after_failure r₂ r₃ b req e w

  -- `Router.Complete`, the router being `r₁`, `r₂` and `r₃` at its three reads.
  unfoldable pub complete :
      Router W → Router W → Router W → Str → Request → W → Result Failure Routed × W
  unfolding after_first
  complete r₁ r₂ r₃ backend req w = elim (find_backend r₁ backend) [
    | none ↦ (err (no_backend backend), w)
    | some b ↦ after_first r₂ r₃ b req (complete_with ctx r₁ b req false w)
  ]

  as_failure : Result Str Routed × W → Result Failure Routed × W
  as_failure (ok res, w) = (ok res, w)
  as_failure (err e, w) = (err (provider_failed e), w)

  -- `Router.CompleteOn`
  unfoldable pub complete_on : Router W → Str → Request → W → Result Failure Routed × W
  unfolding as_failure
  complete_on r backend req w = elim (find_backend r backend) [
    | none ↦ (err (no_backend backend), w)
    | some b ↦ as_failure (complete_with ctx r b req false w)
  ]
