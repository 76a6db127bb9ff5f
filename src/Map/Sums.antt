-- ===== src/Map/Sums.antt =====
-- Sums over the values of a map, and how an insertion changes them.
use blockhain_core.Map.{Map, get, insert, values, map_values}
use blockhain_core.Prelude.{ℕ, ◌+◌, ◌≤◌, ◌≡◌, refl, Option, none, some, [], ◌∷◌, arith, Eq, sum_by}

-- What a key contributes to a sum.
abbrev pub share {ℓ} : {V : Type ℓ} → (V → ℕ) → Option V → ℕ
share f none = 0
share f (some v) = f v

module _ {ℓ} {K V : Type ℓ} ⦃e : Eq K⦄ where
  pub sum_by-insert :
      (f : V → ℕ) (k : K) (v : V) (m : Map K V)
      → sum_by f (values (insert k v m)) + share f (get k m) ≡ sum_by f (values m) + f v
  unfolding get insert
  sum_by-insert f k v [] = omega arith
  sum_by-insert f k v ((j, w) ∷ m) = ground (arith, sum_by-insert f k v m)

  pub share-le-sum_by : (f : V → ℕ) (k : K) (m : Map K V) → share f (get k m) ≤ sum_by f (values m)
  unfolding get
  share-le-sum_by f k [] = omega arith
  share-le-sum_by f k ((j, w) ∷ m) = ground (arith, share-le-sum_by f k m)

pub sum_by-map_values {ℓ} :
    {K V : Type ℓ} (f : V → ℕ) (g : V → V) (m : Map K V)
    → ((v : V) → f (g v) ≡ f v)
    → sum_by f (values (map_values g m)) ≡ sum_by f (values m)
unfolding map_values
sum_by-map_values f g [] h = refl
sum_by-map_values f g ((k, v) ∷ m) h = omega (arith, h v, sum_by-map_values f g m h)
