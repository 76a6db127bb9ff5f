-- ===== src/Map/Laws.antt =====
-- How each map operation changes what a lookup finds.
use blockhain_core.Map.{Map, get, insert, remove, map_values}
use blockhain_core.Prelude.{
  ◌≡◌, refl, ap, ◌≢◌, true, none, some, [], ◌∷◌, arith, if◌then◌else◌, Eq, ◌==◌, eq_refl, eq→path,
  ne→false, ℕ-Eq, String-Eq, Bytes-Eq, Option-Eq,
}
use mathlib.Core.Option

module _ {ℓ} {K V : Type ℓ} ⦃e : Eq K⦄ where
  pub get-insert :
      (k j : K) (v : V) (m : Map K V) → get j (insert k v m) ≡ (if k == j then some v else get j m)
  unfolding get insert
  get-insert k j v [] = refl
  get-insert k j v ((i, w) ∷ m) =
      ground (arith, e.test_iff k j, e.test_iff i k, e.test_iff i j, get-insert k j v m)

  pub get-insert_self : (k : K) (v : V) (m : Map K V) → get k (insert k v m) ≡ some v
  get-insert_self k v m = rw (get-insert k k v m, eq_refl k)

  pub get-insert_ne : (k j : K) (v : V) (m : Map K V) → k ≢ j → get j (insert k v m) ≡ get j m
  get-insert_ne k j v m h = rw (get-insert k j v m, ne→false k j h)

  pub get-remove : (k j : K) (m : Map K V) → get j (remove k m) ≡ (if k == j then none else get j m)
  unfolding get remove
  get-remove k j [] = ground arith
  get-remove k j ((i, w) ∷ m) =
      ground (arith, e.test_iff k j, e.test_iff i k, e.test_iff i j, get-remove k j m)

  pub get-map_values :
      (f : V → V) (k : K) (m : Map K V) → get k (map_values f m) ≡ Option.map f (get k m)
  unfolding get map_values
  get-map_values f k [] = refl
  get-map_values f k ((j, v) ∷ m) = ground (arith, get-map_values f k m)

  -- Writing the key twice leaves the second value.
  pub insert-insert : (k : K) (v w : V) (m : Map K V) → insert k w (insert k v m) ≡ insert k w m
  unfolding insert
  insert-insert k v w [] = ground (arith, eq_refl k)
  insert-insert k v w ((j, u) ∷ m) = ground (arith, eq_refl k, insert-insert k v w m)

  pub get_of_eq : (k j : K) (m : Map K V) → (k == j) ≡ true → get k m ≡ get j m
  get_of_eq k j m h = ap (λ x. get x m) (eq→path k j h)
