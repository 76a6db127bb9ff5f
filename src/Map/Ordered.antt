-- ===== src/Map/Ordered.antt =====
-- `BTreeMap<u64, V>` as an association list that insertion keeps in the order of its keys, and
-- `HashSet<String>` as a list. Lookups and removals are those of `Map`.
use blockhain_core.Prelude.{
  ℕ, ◌+◌, ◌≤◌, String, ◌≡◌, refl, ap, Bool, true, false, not, some, List, [], ◌∷◌, arith, ltb,
  if◌then◌else◌, Eq, ◌==◌, eq→path, eq_sym, ℕ-Eq, String-Eq, Bytes-Eq, Option-Eq, length, filter,
}
use blockhain_core.Map.{Map, get, insert, remove}

module _ {V : Type 0} where
  -- `m.insert(k, v)` on a `BTreeMap`
  unfoldable pub insert_ordered : ℕ → V → Map ℕ V → Map ℕ V
  insert_ordered k v [] = (k, v) ∷ []
  insert_ordered k v ((j, w) ∷ m) =
      if j == k
      then (k, v) ∷ m
      else if ltb k j
      then (k, v) ∷ (j, w) ∷ m
      else (j, w) ∷ insert_ordered k v m

  pub get-insert_ordered :
      (k j : ℕ) (v : V) (m : Map ℕ V)
      → get j (insert_ordered k v m) ≡ (if k == j then some v else get j m)
  unfolding get insert_ordered
  get-insert_ordered k j v [] = refl
  get-insert_ordered k j v ((i, w) ∷ m) = ground (arith, get-insert_ordered k j v m)

  pub length-insert_ordered :
      (k : ℕ) (v : V) (m : Map ℕ V) → length (insert_ordered k v m) ≤ length m + 1
  unfolding insert_ordered
  length-insert_ordered k v [] = omega arith
  length-insert_ordered k v ((i, w) ∷ m) = ground (arith, length-insert_ordered k v m)

module _ {ℓ} {K V : Type ℓ} ⦃e : Eq K⦄ where
  pub length-remove-le : (k : K) (m : Map K V) → length (remove k m) ≤ length m
  unfolding remove
  length-remove-le k [] = omega arith
  length-remove-le k ((j, v) ∷ m) = ground (arith, length-remove-le k m)

  pub length-remove :
      (k : K) {v : V} (m : Map K V) → get k m ≡ some v → length (remove k m) + 1 ≤ length m
  unfolding get remove
  length-remove k {v} [] h = ground arith
  length-remove k {v} ((j, w) ∷ m) h =
      ground (arith, length-remove-le k m, length-remove k {v = v} m)

  pub length-insert : (k : K) (v : V) (m : Map K V) → length (insert k v m) ≤ length m + 1
  unfolding insert
  length-insert k v [] = omega arith
  length-insert k v ((j, w) ∷ m) = ground (arith, length-insert k v m)

-- `s.contains(x)`, `s.insert(x)` and `s.remove(x)` on a `HashSet<String>`
unfoldable pub contains : String → List String → Bool
contains x [] = false
contains x (y ∷ ys) = if y == x then true else contains x ys

unfoldable pub set_insert : String → List String → List String
unfolding contains
set_insert x ys = if contains x ys then ys else x ∷ ys

unfoldable pub set_remove : String → List String → List String
set_remove x ys = filter (λ y. not (y == x)) ys

contains_of_eq : (x y : String) (ys : List String) → (x == y) ≡ true → contains x ys ≡ contains y ys
contains_of_eq x y ys h = ap (λ z. contains z ys) (eq→path x y h)

pub contains-set_insert :
    (x y : String) (ys : List String)
    → contains y (set_insert x ys) ≡ (if x == y then true else contains y ys)
unfolding set_insert contains
contains-set_insert x y ys = ground (arith, contains_of_eq x y ys)

pub contains-set_remove :
    (x y : String) (ys : List String)
    → contains y (set_remove x ys) ≡ (if x == y then false else contains y ys)
unfolding set_remove contains
contains-set_remove x y [] = ground arith
contains-set_remove x y (z ∷ zs) =
    ground (arith, contains-set_remove x y zs, eq→path z x, eq→path z y, eq_sym x y, eq_sym z x)
