-- ===== src/Base/Assoc.antt =====
-- Go's `map[string]V` as the list of what was stored, the latest first: a key has the value that was
-- stored last. The code never ranges over one of these maps, nor deletes from one.
use Prim.Native.String.{String}
use text.Mathlib.Text.{◌==◌}
use mathlib.Core.Path.{◌≡◌, refl}
use mathlib.Core.Option.{Option, none, some}
use mathlib.Core.List.{List, [], ◌∷◌}
use allezon.Base.Compare.{if◌then◌else◌}

abbrev pub Assoc {ℓ} : Type ℓ → Type ℓ
Assoc Value = List (String × Value)

-- `m[name] = held`
unfoldable pub insert {ℓ} : {Value : Type ℓ} → String → Value → Assoc Value → Assoc Value
insert name held stored = (name, held) ∷ stored

-- `held, ok := m[name]`
unfoldable pub lookup {ℓ} : {Value : Type ℓ} → String → Assoc Value → Option Value
lookup name [] = none
lookup name ((key, held) ∷ older) =
    let earlier = lookup name older in if key == name then some held else earlier

pub lookup-insert {ℓ} :
    {Value : Type ℓ} (name key : String) (held : Value) (stored : Assoc Value)
    → lookup key (insert name held stored) ≡ (if name == key then some held else lookup key stored)
unfolding insert lookup
lookup-insert name key held stored = refl
