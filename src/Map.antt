-- ===== src/Map.antt =====
-- `HashMap<K, V>` as an association list with the first entry of a key in force. The program never
-- relies on the iteration order of a hash map: the list is one order, and theorems hold for each.
pub mod Laws
pub mod Sums
pub mod Ordered
use blockhain_core.Prelude.{
  ℕ, Bool, true, false, Option, none, some, List, [], ◌∷◌, map, Eq, ◌==◌, if◌then◌else◌, sum_by,
}

abbrev pub Map {ℓ} : Type ℓ → Type ℓ → Type ℓ
Map K V = List (K × V)

module _ {ℓ} {K V : Type ℓ} ⦃e : Eq K⦄ where
  -- `m.get(k)`
  unfoldable pub get : K → Map K V → Option V
  get k [] = none
  get k ((j, v) ∷ m) = if j == k then some v else get k m

  -- `m.contains_key(k)`
  abbrev pub contains_key : K → Map K V → Bool
  contains_key k m = elim (get k m) [ none ↦ false | some _ ↦ true ]

  -- `m.insert(k, v)`
  unfoldable pub insert : K → V → Map K V → Map K V
  insert k v [] = (k, v) ∷ []
  insert k v ((j, w) ∷ m) = if j == k then (k, v) ∷ m else (j, w) ∷ insert k v m

  -- `m.remove(k)`, every entry of the key
  unfoldable pub remove : K → Map K V → Map K V
  remove k [] = []
  remove k ((j, w) ∷ m) = let rest = remove k m in if j == k then rest else (j, w) ∷ rest

  -- `m.entry(k).or_insert(d)`, read
  abbrev pub get_or : K → V → Map K V → V
  get_or k d m = elim (get k m) [ none ↦ d | some v ↦ v ]

-- `m.values()`
abbrev pub values {ℓ} : {K V : Type ℓ} → Map K V → List V
values [] = []
values ((k, v) ∷ m) = v ∷ values m

-- `m.keys()`
abbrev pub keys {ℓ} : {K V : Type ℓ} → Map K V → List K
keys [] = []
keys ((k, v) ∷ m) = k ∷ keys m

-- `for v in m.values_mut() { *v = f(v) }`
unfoldable pub map_values {ℓ} : {K V : Type ℓ} → (V → V) → Map K V → Map K V
map_values f [] = []
map_values f ((k, v) ∷ m) = (k, f v) ∷ map_values f m
