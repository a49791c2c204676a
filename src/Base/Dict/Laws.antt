-- ===== src/Base/Dict/Laws.antt =====
-- What a lookup sees after each operation on a map.
use Prim.Native.String.{String}
use mathlib.Core.Path.{◌≡◌, refl, subst₂}
use mathlib.Core.Bool.{Bool}
use mathlib.Core.Option
use mathlib.Core.Option.{Option, none, some}
use mathlib.Core.List.{[], ◌∷◌}
use native.Mathlib.Omega.{arith}
use text.Mathlib.Text.{◌==◌}
use text.Mathlib.TextEquality.{eq_iff}
use text.Mathlib.TextPositions.{eq_refl}
use mathlib.Core.Logic.{◌≢◌, inl, inr}
use pinakes.Base.Tests.{if◌then◌else◌, eq_false, Bool-cases}
use pinakes.Base.Dict.{Dict, lookup, lookup_or, insert, remove, keep_if, sweep_values}

module _ {ℓ} {V : Type ℓ} where
  pub lookup-insert :
      (k j : String) (new : V) (dict : Dict V)
      → lookup j (insert k new dict) ≡ (if k == j then some new else lookup j dict)
  unfolding insert lookup
  lookup-insert k j new [] = refl
  lookup-insert k j new ((at, old) ∷ more) =
      ground (arith, lookup-insert k j new more, eq_iff at j, eq_iff at k, eq_iff k j)

  pub lookup-insert_self : (k : String) (v : V) (m : Dict V) → lookup k (insert k v m) ≡ some v
  lookup-insert_self k v m = simp (lookup-insert, eq_refl)

  pub lookup-remove :
      (k j : String) (m : Dict V) → lookup j (remove k m) ≡ (if k == j then none else lookup j m)
  unfolding lookup remove
  lookup-remove k j [] = ground arith
  lookup-remove k j ((i, w) ∷ m) =
      ground (arith, eq_iff k j, eq_iff i k, eq_iff i j, lookup-remove k j m)

  pub lookup_or-insert :
      (d : V) (k j : String) (v : V) (m : Dict V)
      → lookup_or d j (insert k v m) ≡ (if k == j then v else lookup_or d j m)
  unfolding lookup_or
  lookup_or-insert d k j v m = ground (arith, lookup-insert k j v m)

-- A loop that threads a state and computes each value from the old one alone.
module _ {ℓ κ} {V : Type ℓ} {S : Type κ} (g : V → V) (f : String → V → S → V × S) where
  pub lookup-sweep_values :
      ((k : String) (v : V) (s : S) → (f k v s).0 ≡ g v)
      → (j : String) (m : Dict V) (s : S)
      → lookup j (sweep_values f m s).0 ≡ Option.map g (lookup j m)
  unfolding lookup sweep_values
  lookup-sweep_values pure j [] s = refl
  lookup-sweep_values pure j ((k, v) ∷ m) s =
      ground (arith, pure k v s, lookup-sweep_values pure j m (f k v s).1)

module _ {ℓ} {V : Type ℓ} where
  pub lookup_or-insert_self :
      (d : V) (k : String) (v : V) (m : Dict V) → lookup_or d k (insert k v m) ≡ v
  lookup_or-insert_self d k v m = simp (lookup_or-insert, eq_refl)

  pub lookup_or-insert_ne :
      (d : V) (k j : String) (v : V) (m : Dict V)
      → k ≢ j
      → lookup_or d j (insert k v m) ≡ lookup_or d j m
  lookup_or-insert_ne d k j v m h = simp (lookup_or-insert, eq_false k j h)

  pub lookup-insert_ne :
      (k j : String) (v : V) (m : Dict V) → k ≢ j → lookup j (insert k v m) ≡ lookup j m
  lookup-insert_ne k j v m h = simp (lookup-insert, eq_false k j h)

-- A property of every entry of a map.
abbrev pub Entries {ℓ κ} : {V : Type ℓ} → (String → V → Type κ) → Dict V → Type κ
Entries P [] = Unit
Entries P ((k, v) ∷ m) = P k v × Entries P m

module _ {ℓ κ} {V : Type ℓ} (P : String → V → Type κ) where
  pub Entries-lookup : (k : String) (v : V) (m : Dict V) → Entries P m → lookup k m ≡ some v → P k v
  unfolding lookup
  Entries-lookup k v [] all e = absurd (cc)
  Entries-lookup k v ((j, w) ∷ m) all e = elim (Bool-cases (j == k)) [
    | inl same ↦
        let hit : some w ≡ some v = rw same at e in subst₂ P ((eq_iff j k).0 same) (cc hit) all.0
    | inr other ↦ Entries-lookup k v m all.1 (rw other at e)
  ]

  pub Entries-insert :
      (k : String) (v : V) (m : Dict V) → P k v → Entries P m → Entries P (insert k v m)
  unfolding insert
  Entries-insert k v [] h all = (h, tt)
  Entries-insert k v ((j, w) ∷ m) h all = elim (Bool-cases (j == k)) [
    | inl same ↦ rw same (h, all.1)
    | inr other ↦ rw other (all.0, Entries-insert k v m h all.1)
  ]

  pub Entries-keep_if : (p : V → Bool) (m : Dict V) → Entries P m → Entries P (keep_if p m)
  unfolding keep_if
  Entries-keep_if p [] all = all
  Entries-keep_if p ((j, w) ∷ m) all = elim (Bool-cases (p w)) [
    | inl stays ↦ rw stays (all.0, Entries-keep_if p m all.1)
    | inr goes ↦ rw goes (Entries-keep_if p m all.1)
  ]

module _ {ℓ κ} {V : Type ℓ} {S : Type κ} (f : String → V → S → V × S) where
  pub Entries-sweep_values {μ} :
      (P : String → V → Type μ)
      → ((k : String) (v : V) (s : S) → P k v → P k (f k v s).0)
      → (m : Dict V) (s : S) → Entries P m
      → Entries P (sweep_values f m s).0
  unfolding sweep_values
  Entries-sweep_values P keep [] s all = tt
  Entries-sweep_values P keep ((k, v) ∷ m) s all =
      (keep k v s all.0, Entries-sweep_values P keep m (f k v s).1 all.1)

  -- An invariant of each step holds after the loop.
  pub sweep_values-keeps {μ} :
      (Q : S → Type μ)
      → ((k : String) (v : V) (s : S) → Q s → Q (f k v s).1)
      → (m : Dict V) (s : S) → Q s
      → Q (sweep_values f m s).1
  unfolding sweep_values
  sweep_values-keeps Q keep [] s q = q
  sweep_values-keeps Q keep ((k, v) ∷ m) s q =
      sweep_values-keeps Q keep m (f k v s).1 (keep k v s q)

module _ {ℓ} {V : Type ℓ} where
  pub lookup_or-remove :
      (d : V) (k j : String) (m : Dict V)
      → lookup_or d j (remove k m) ≡ (if k == j then d else lookup_or d j m)
  unfolding lookup_or
  lookup_or-remove d k j m = ground (arith, lookup-remove k j m)
