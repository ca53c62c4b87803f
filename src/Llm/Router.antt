-- ===== src/Llm/Router.antt =====
-- internal/llm/router.go, with the samples of internal/llm/metrics.go. A provider is a call of its
-- own on a world `W`, everything outside the router: it answers or fails with a text. The context
-- and the clock are read off the world. The mutex makes each read of the router atomic, and a
-- `Replace` may come between two reads: `complete` is given the router as each read finds it.
-- What is logged is left out. This file has the backend set; Complete.antt serves a turn.
pub mod Replace
use wintermute.Prelude.{
  ℕ, ◌-◌, Bool, true, false, not, ◌&&◌, ◌||◌, Option, none, some, List, [], ◌∷◌, ◌++◌, map, Result,
  ok, err, ◌==◌, if◌then◌else◌, ltb, length,
}
use wintermute.Prelude.Str.{Str, codes, str_eq, trim_space}
use wintermute.Prelude.Assoc.{Assoc, lookup, contains, insert}
use wintermute.Prelude.Sort.{sort_strings}
use wintermute.Llm.Message.{Request, Response}

pub record Sample : Type 0 where
  pub backend : Str
  pub model : Str
  pub prompt_tokens : ℕ
  pub completion_tokens : ℕ
  pub duration : ℕ
  pub failed : Bool
  pub fell_back : Bool

pub record Backend (W : Type 0) : Type 0 where
  pub name : Str
  pub provider : Request → W → Result Str Response × W
  pub model : Str
  pub cloud : Bool

pub record Router (W : Type 0) : Type 0 where
  pub backends : Assoc Str (Backend W)
  pub order : List Str
  pub def : Str
  pub fallback : Str
  pub recorder : Option (Sample → W → W)

pub data ReplaceError : Type 0 where
  no_backends unnamed : ReplaceError
  duplicate unknown_default unknown_fallback : Str → ReplaceError

unfoldable pub first_name : List Str → Str
first_name [] = []
first_name (n ∷ ns) = n

-- With no default named, the first name in order.
unfoldable pub chosen_default : Str → List Str → Str
unfolding first_name
chosen_default def sorted = if def == [] then first_name sorted else def

module _ {W : Type 0} where
  -- The loop of `Replace`: the backends by name, and their names in the order given.
  unfoldable pub declare :
      Assoc Str (Backend W)
      → List Str
      → List (Backend W)
      → Result ReplaceError (Assoc Str (Backend W) × List Str)
  declare next order [] = ok (next, order)
  declare next order (b ∷ bs) =
      let rest = declare (insert b.name b next) (order ++ b.name ∷ []) bs in
      if b.name == []
      then err unnamed
      else if contains b.name next
      then err (duplicate b.name)
      else rest

  -- What `Replace` checks behind its loop, and the router that it then installs.
  unfoldable pub install :
      Router W → Str → Str → Assoc Str (Backend W) × List Str → Result ReplaceError (Router W)
  install r def fallback (next, order) =
      let sorted = sort_strings order in
      let chosen = chosen_default def sorted in
      if not (contains chosen next)
      then err (unknown_default chosen)
      else if not (fallback == []) && not (contains fallback next)
      then err (unknown_fallback fallback)
      else ok (record r { backends = next; order = sorted; def = chosen; fallback = fallback })

  abbrev pub keep_on_error :
      Router W → Result ReplaceError (Router W) → Router W × Option ReplaceError
  keep_on_error r (ok r') = (r', none)
  keep_on_error r (err e) = (r, some e)

  is_empty : List (Backend W) → Bool
  is_empty [] = true
  is_empty (b ∷ bs) = false

  unfoldable pub checked : Router W → List (Backend W) → Str → Str → Result ReplaceError (Router W)
  unfolding is_empty
  checked r backends def fallback =
      if is_empty backends then err no_backends else (elim (declare [] [] backends) [
        | ok declared ↦ install r def fallback declared
        | err e ↦ err e
      ])

  unfoldable pub replace : Router W → List (Backend W) → Str → Str → Router W × Option ReplaceError
  replace r backends def fallback = keep_on_error r (checked r backends def fallback)

  unfoldable pub new_router : List (Backend W) → Str → Str → Result ReplaceError (Router W)
  new_router backends def fallback =
      checked (record { backends = []; order = []; def = []; fallback = []; recorder = none })
        backends def fallback

  unfoldable pub names : Router W → List Str
  names r = r.order

  -- `Router.Backend`
  unfoldable pub find_backend : Router W → Str → Option (Backend W)
  find_backend r name = lookup (if name == [] then r.def else name) r.backends
