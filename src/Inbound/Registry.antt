-- ===== src/Inbound/Registry.antt =====
-- extend/registry.go: extractors of consumer-defined fields.
use navlink.Base.{ℕ, ◌+◌, Option, none, some, List, [], ◌∷◌, ◌++◌}
use navlink.Base.Result.{Result, ok, err}
use navlink.Base.Text.{GoString, text, string_eq, itoa}
use navlink.Base.Dict.{insert}
use navlink.Errors.{GoError, wrapped}
use navlink.Topic.Channels.{Channel}

-- Meta
abbrev pub Meta : Type 0 → Type 0
Meta V = List (GoString × V)

-- Extractor
abbrev pub Extractor : Type 0 → Type 0 → Type 0
Extractor E V = Channel → List ℕ → Result (GoError E) (Meta V)

-- Registry
pub record Registry (E V : Type 0) : Type 0 where
  pub extractors : List (Extractor E V)

module _ {E V : Type 0} where
  -- NewRegistry
  unfoldable pub new_registry : Registry E V
  new_registry = record { extractors = [] }

  -- Register; a nil extractor is ignored.
  unfoldable pub register : Registry E V → Option (Extractor E V) → Registry E V
  register r none = r
  register r (some e) = record r { extractors = r.extractors ++ (e ∷ []) }

-- for k, v := range meta { out[k] = v }
abbrev pub merge : {V : Type 0} → Meta V → Meta V → Meta V
merge out [] = out
merge out ((k, v) ∷ meta) = merge (insert k v out) meta

-- "extension extractor %d: %w"
abbrev pub extractor_failed : {E : Type 0} → ℕ → GoError E → GoError E
extractor_failed i e = wrapped (text "extension extractor " ++ itoa i) e

module _ {E V : Type 0} where
  -- The loop of Apply, from extractor `i`.
  apply_from : ℕ → List (Extractor E V) → Channel → List ℕ → Meta V → Result (GoError E) (Meta V)
  apply_from i [] channel raw out = ok out
  apply_from i (e ∷ es) channel raw out = elim (e channel raw) [
    | err x ↦ err (extractor_failed i x)
    | ok meta ↦ apply_from (i + 1) es channel raw (merge out meta)
  ]

  -- Apply
  unfoldable pub apply : Registry E V → Channel → List ℕ → Result (GoError E) (Meta V)
  unfolding apply_from
  apply r channel raw = apply_from 0 r.extractors channel raw []
