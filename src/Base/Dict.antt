-- ===== src/Base/Dict.antt =====
-- A Go map with text keys, as an association list in which a key stands once.
pub mod Laws
use Prim.Native.String.{String}
use mathlib.Core.Bool.{Bool, true, false}
use mathlib.Core.Option.{Option, none, some}
use mathlib.Core.List.{List, [], ◌∷◌}
use text.Mathlib.Text.{◌==◌}
use pinakes.Base.Tests.{if◌then◌else◌}

abbrev pub Dict {ℓ} : Type ℓ → Type ℓ
Dict V = List (String × V)

module _ {ℓ} {V : Type ℓ} where
  -- `v, ok := m[k]`
  unfoldable pub lookup : String → Dict V → Option V
  lookup k [] = none
  lookup k ((j, v) ∷ m) = if j == k then some v else lookup k m

  -- `m[k]`, which is the zero value where the key is missing
  unfoldable pub lookup_or : V → String → Dict V → V
  unfolding lookup
  lookup_or d k m = elim (lookup k m) [ none ↦ d | some v ↦ v ]

  -- `m[k] = v`
  unfoldable pub insert : String → V → Dict V → Dict V
  insert k new [] = (k, new) ∷ []
  insert k new (entry ∷ more) =
      let kept = entry ∷ insert k new more in if entry.0 == k then (k, new) ∷ more else kept

  -- `delete(m, k)`
  unfoldable pub remove : String → Dict V → Dict V
  remove k [] = []
  remove k ((j, v) ∷ m) = let rest = remove k m in if j == k then rest else (j, v) ∷ rest

  -- The keys at which a loop over the map deletes nothing.
  unfoldable pub keep_if : (V → Bool) → Dict V → Dict V
  keep_if p [] = []
  keep_if p ((j, v) ∷ m) = let rest = keep_if p m in if p v then (j, v) ∷ rest else rest

-- A loop over a map that replaces each value and threads a state.
module _ {ℓ κ} {V : Type ℓ} {S : Type κ} where
  unfoldable pub sweep_values : (String → V → S → V × S) → Dict V → S → Dict V × S
  sweep_values f [] s = ([], s)
  sweep_values f ((k, v) ∷ m) s =
      let (v', s') = f k v s in let (m', s'') = sweep_values f m s' in ((k, v') ∷ m', s'')
