-- ===== src/Common/Maps.antt =====
-- `HashMap` with text keys, as an association list with one entry for each key. No theorem depends
-- on the order of the entries, which Rust leaves open.
use mathlib.Core.Path.{◌≡◌, refl}
use mathlib.Core.List.{List, [], ◌∷◌, map}
use mathlib.Core.Option.{Option, none, some}
use native.Mathlib.Omega.{arith}
use patchbay.Common.Tests.{if◌then◌else◌}
use patchbay.Common.Texts.{Text, text_eq, text_eq_iff}

abbrev pub Map {ℓ} : Type ℓ → Type ℓ
Map V = List (Text × V)

module _ {ℓ} {V : Type ℓ} where
  -- `HashMap::get`
  unfoldable pub get : Map V → Text → Option V
  get [] k = none
  get ((j, v) ∷ m) k = if text_eq j k then some v else get m k

  -- `HashMap::insert`
  unfoldable pub insert : Map V → Text → V → Map V
  insert [] k v = (k, v) ∷ []
  insert ((j, w) ∷ m) k v = if text_eq j k then (j, v) ∷ m else (j, w) ∷ insert m k v

  -- A `HashMap` has each key once: its keys are distinct.
  abbrev pub keys : Map V → List Text
  keys m = map (λ e. e.0) m

  pub get-insert :
      (m : Map V) (k j : Text) (v : V)
      → get (insert m k v) j ≡ (if text_eq k j then some v else get m j)
  unfolding get insert
  get-insert [] k j v = refl
  get-insert ((i, w) ∷ m) k j v =
      ground (arith, text_eq_iff i k, text_eq_iff i j, text_eq_iff k j, get-insert m k j v)

  -- `get(k).unwrap_or(d)`
  abbrev pub get_or : Map V → Text → V → V
  get_or m k d = elim (get m k) [ none ↦ d | some v ↦ v ]

pub get-empty {ℓ} : {V : Type ℓ} (k : Text) → get {V = V} [] k ≡ none
unfolding get
get-empty k = refl

pub ruleset map_laws = (get-insert, get-empty)
