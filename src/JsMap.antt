-- ===== src/JsMap.antt =====
-- The `Map` of JavaScript with string keys, as its entries in insertion order: a write to a key
-- that is there replaces the value in place, any other write appends. And the `Set` of strings.
pub mod Laws
pub mod Keyed
use codesoul.Prelude.{
  Text, ◌==◌, Bool, true, false, Option, none, some, List, [], ◌∷◌, map, if◌then◌else◌, ◌||◌, ◌++◌,
}

abbrev pub JsMap : Type 0 → Type 0
JsMap V = List (Text × V)

module _ {V : Type 0} where
  unfoldable pub get : Text → JsMap V → Option V
  get k [] = none
  get k ((j, v) ∷ m) = if j == k then some v else get k m

  unfoldable pub has : Text → JsMap V → Bool
  has k [] = false
  has k ((j, v) ∷ m) = j == k || has k m

  unfoldable pub set : Text → V → JsMap V → JsMap V
  set k v [] = (k, v) ∷ []
  set k v ((j, w) ∷ m) = if j == k then (j, v) ∷ m else (j, w) ∷ set k v m

  abbrev pub keys : JsMap V → List Text
  keys = map (λ e. e.0)

  abbrev pub values : JsMap V → List V
  values = map (λ e. e.1)

abbrev pub JsSet : Type 0
JsSet = List Text

unfoldable pub contains : Text → JsSet → Bool
contains k [] = false
contains k (j ∷ s) = j == k || contains k s

unfoldable pub add : Text → JsSet → JsSet
add k s = if contains k s then s else s ++ k ∷ []
