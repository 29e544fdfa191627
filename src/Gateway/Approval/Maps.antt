-- ===== src/Gateway/Approval/Maps.antt =====
-- A hash map with texts as keys, as a list of its entries: what `HashMap` of the Rust library does.
use sqreen_core.Prelude.{
  ◌≡◌, ◌≢◌, arith, String, str_eq, eq_iff, Option, none, some, List, [], ◌∷◌, if◌then◌else◌,
}

module _ {V : Type 0} where
  -- `get`
  unfoldable pub get : String → List (String × V) → Option V
  get key [] = none
  get key ((k, v) ∷ es) = if str_eq k key then some v else get key es

  -- `insert`
  unfoldable pub insert : String → V → List (String × V) → List (String × V)
  insert key v [] = (key, v) ∷ []
  insert key v ((k, w) ∷ es) = if str_eq k key then (k, v) ∷ es else (k, w) ∷ insert key v es

  -- `remove`
  unfoldable pub remove : String → List (String × V) → List (String × V)
  remove key [] = []
  remove key ((k, w) ∷ es) = if str_eq k key then es else (k, w) ∷ remove key es

  -- The value under the key that was inserted.
  pub get-insert_self :
      (key : String) (v : V) (es : List (String × V)) → get key (insert key v es) ≡ some v
  unfolding get insert
  get-insert_self key v [] = ground (arith, eq_iff key key)
  get-insert_self key v ((k, w) ∷ es) = ground (arith, get-insert_self key v es)

  -- The value under another key.
  pub get-insert_ne :
      (key other : String) (v : V) (es : List (String × V))
      → other ≢ key
      → get other (insert key v es) ≡ get other es
  unfolding get insert
  get-insert_ne key other v [] h = ground (arith, eq_iff key other, h)
  get-insert_ne key other v ((k, w) ∷ es) h =
      ground (arith, eq_iff k key, eq_iff k other, h, get-insert_ne key other v es h)
