-- ===== src/Tool/Registry.antt =====
-- internal/tool/tool.go: the registry of tools. A handler that is nil is `none`; a Go map is walked in the
-- order of its list. Each call holds the lock throughout or, in `Register`, twice, taken as one step.
pub mod Laws
use wintermute.Prelude.{
  Bool, true, false, not, Option, none, some, List, [], ◌∷◌, Result, ok, err, refuse_if, ◌>>=◌,
  ◌>>◌, ◌==◌, if◌then◌else◌,
}
use wintermute.Prelude.Str.{Str, codes, str_eq, ltb_str}
use wintermute.Prelude.Assoc.{Assoc, lookup, contains, insert}
use wintermute.Tool.{Side, server, client, Definition, Handler, valid}

pub record Registry (W : Type 0) : Type 0 where
  pub defs : Assoc Str Definition
  pub handlers : Assoc Str (Handler W)

pub data RegisterError : Type 0 where
  handler_nil name_empty risk_invalid duplicate : RegisterError

-- The schema of a tool that declares none.
empty_schema : Str → Str
empty_schema [] = codes "{\"type\":\"object\",\"properties\":{}}"
empty_schema (c ∷ cs) = c ∷ cs

module _ {W : Type 0} where
  unfoldable pub new_registry : Registry W
  new_registry = record { defs = []; handlers = [] }

  -- The unexported `register`.
  unfoldable pub register_def : Registry W → Definition → Result RegisterError (Registry W)
  unfolding empty_schema
  register_def r def =
      refuse_if (def.name == []) name_empty
      >> refuse_if (not (valid def.risk)) risk_invalid
      >> refuse_if (contains def.name r.defs) duplicate
      >> ok (record r {
        defs = insert def.name (record def { parameters = empty_schema def.parameters }) r.defs;
      })

  -- `Register`
  unfoldable pub register :
      Registry W → Definition → Option (Handler W) → Result RegisterError (Registry W)
  register r def none = err handler_nil
  register r def (some h) = register_def r (record def { side = server }) >>= λ (r' : Registry W).
      ok (record r' { handlers = insert def.name h r'.handlers })

  -- `RegisterClient`
  unfoldable pub register_client : Registry W → Definition → Result RegisterError (Registry W)
  register_client r def = register_def r (record def { side = client })

  -- `Registry.Definition`
  unfoldable pub find_definition : Registry W → Str → Option Definition
  find_definition r name = lookup name r.defs

  -- `Registry.Handler`
  unfoldable pub find_handler : Registry W → Str → Option (Handler W)
  find_handler r name = lookup name r.handlers

-- Sorted in by name.
by_name : Definition → List Definition → List Definition
by_name d [] = d ∷ []
by_name d (e ∷ es) =
    let rest = by_name d es in if ltb_str e.name d.name then e ∷ rest else d ∷ e ∷ es

sorted_defs : Assoc Str Definition → List Definition
sorted_defs [] = []
sorted_defs ((name, d) ∷ ds) = by_name d (sorted_defs ds)

-- `Definitions`
unfoldable pub definitions : {W : Type 0} → Registry W → List Definition
unfolding sorted_defs by_name
definitions r = sorted_defs r.defs
