-- ===== src/Base/Dicts.antt =====
-- Dictionaries with texts as keys, in insertion order.
use Prim.Native.String.{String}
use mathlib.Core.Path.{◌≡◌, refl}
use mathlib.Core.Bool.{false}
use mathlib.Core.Option.{Option, none, some}
use mathlib.Core.List.{List, [], ◌∷◌}
use native.Mathlib.Omega.{arith}
use text.Mathlib.TextEquality.{eq_iff}
use warptap.Base.Tests.{same_name, if◌then◌else◌}

module _ {A : Type 0} where
  -- `d.get(key)`
  abbrev pub lookup : List (String × A) → String → Option A
  lookup [] key = none
  lookup ((k, v) ∷ d) key = if same_name k key then some v else lookup d key

  -- `d[key] = value`
  abbrev pub assign : List (String × A) → String → A → List (String × A)
  assign [] key value = (key, value) ∷ []
  assign ((k, v) ∷ d) key value =
      let others = assign d key value in if same_name k key then (k, value) ∷ d else (k, v) ∷ others

  -- What `d.pop(key, None)` leaves.
  abbrev pub remove : List (String × A) → String → List (String × A)
  remove [] key = []
  remove ((k, v) ∷ d) key =
      let others = remove d key in if same_name k key then others else (k, v) ∷ others

  pub lookup-assign :
      (d : List (String × A)) (key : String) (value : A)
      → lookup (assign d key value) key ≡ some value
  lookup-assign [] key value = ground (arith, eq_iff key key)
  lookup-assign ((k, v) ∷ d) key value = ground (arith, eq_iff k key, lookup-assign d key value)

  pub lookup-assign_other :
      (d : List (String × A)) (key other : String) (value : A)
      → same_name key other ≡ false
      → lookup (assign d key value) other ≡ lookup d other
  lookup-assign_other [] key other value h = ground (arith, eq_iff key other)
  lookup-assign_other ((k, v) ∷ d) key other value h = ground (
    arith,
    eq_iff k key,
    eq_iff key other,
    eq_iff k other,
    lookup-assign_other d key other value h,
  )

  pub lookup-remove : (d : List (String × A)) (key : String) → lookup (remove d key) key ≡ none
  lookup-remove [] key = refl
  lookup-remove ((k, v) ∷ d) key = ground (arith, lookup-remove d key)

  pub lookup-remove_other :
      (d : List (String × A)) (key other : String)
      → same_name key other ≡ false
      → lookup (remove d key) other ≡ lookup d other
  lookup-remove_other [] key other h = refl
  lookup-remove_other ((k, v) ∷ d) key other h =
      ground
        (arith, eq_iff k key, eq_iff key other, eq_iff k other, lookup-remove_other d key other h)
