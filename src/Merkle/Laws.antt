-- ===== src/Merkle/Laws.antt =====
-- The pairing loop ends with a root, and does not tell a last odd node from the same node twice.
use blockhain_core.Prelude.{
  ℕ, zero, suc, ◌*◌, ◌≤◌, ◌<◌, ◌≡◌, refl, ap, ◌∙◌, some, List, [], ◌∷◌, ◌++◌, arith, ℕ-Eq,
  String-Eq, Bytes-Eq, Option-Eq, length,
}
use blockhain_core.Merkle.{pair_level, merkle_loop, merkle_root}

module _ {A : Type 0} (combine : A → A → A) where
  length-pair_level :
      (x y : A) (rest : List A) → length (pair_level combine (x ∷ y ∷ rest)) < length (x ∷ y ∷ rest)
  unfolding pair_level
  length-pair_level x y [] = omega arith
  length-pair_level x y (z ∷ []) = omega arith
  length-pair_level x y (z ∷ w ∷ rest) = omega (arith, length-pair_level z w rest)

  pair_level_pos : (x : A) (rest : List A) → 0 < length (pair_level combine (x ∷ rest))
  unfolding pair_level
  pair_level_pos x [] = omega arith
  pair_level_pos x (y ∷ rest) = omega arith

  -- Fuel for each node is enough, and more fuel gives the same root.
  pub loop_total :
      (f : ℕ) (xs : List A)
      → 0 < length xs
      → length xs ≤ f
      → (r : A) × (merkle_loop combine f xs ≡ some r)
  unfolding merkle_loop
  loop_total zero [] p h = absurd (omega arith)
  loop_total zero (x ∷ xs) p h = absurd (omega arith)
  loop_total (suc f) [] p h = absurd (omega arith)
  loop_total (suc f) (x ∷ []) p h = (x, refl)
  loop_total (suc f) (x ∷ y ∷ rest) p h =
      loop_total f (pair_level combine (x ∷ y ∷ rest)) (pair_level_pos x (y ∷ rest))
        (omega (arith, length-pair_level x y rest))

  loop_fuel :
      (f g : ℕ) (xs : List A)
      → length xs ≤ f
      → length xs ≤ g
      → 0 < length xs
      → merkle_loop combine f xs ≡ merkle_loop combine g xs
  unfolding merkle_loop
  loop_fuel zero g [] h k p = absurd (omega arith)
  loop_fuel zero g (x ∷ xs) h k p = absurd (omega arith)
  loop_fuel (suc f) zero [] h k p = absurd (omega arith)
  loop_fuel (suc f) zero (x ∷ xs) h k p = absurd (omega arith)
  loop_fuel (suc f) (suc g) [] h k p = refl
  loop_fuel (suc f) (suc g) (x ∷ []) h k p = refl
  loop_fuel (suc f) (suc g) (x ∷ y ∷ rest) h k p =
      loop_fuel f g (pair_level combine (x ∷ y ∷ rest)) (omega (arith, length-pair_level x y rest))
        (omega (arith, length-pair_level x y rest)) (pair_level_pos x (y ∷ rest))

  pub pair_level_duplicate :
      (n : ℕ) (xs : List A) (x : A)
      → length xs ≡ 2 * n
      → pair_level combine (xs ++ x ∷ []) ≡ pair_level combine (xs ++ x ∷ x ∷ [])
  unfolding pair_level
  pair_level_duplicate zero [] x h = refl
  pair_level_duplicate zero (y ∷ ys) x h = absurd (omega arith)
  pair_level_duplicate (suc n) [] x h = absurd (omega arith)
  pair_level_duplicate (suc n) (y ∷ []) x h = absurd (omega arith)
  pair_level_duplicate (suc n) (y ∷ z ∷ zs) x h =
      ap (λ r. combine y z ∷ r) (pair_level_duplicate n zs x (omega arith))

  -- Of an even number of at least two nodes and one more, the root is that of the list with the last
  -- node written twice.
  pub root_duplicate :
      (n : ℕ) (y z : A) (ys : List A) (x : A)
      → length ys ≡ 2 * n
      → merkle_root combine ((y ∷ z ∷ ys) ++ x ∷ [])
        ≡ merkle_root combine ((y ∷ z ∷ ys) ++ x ∷ x ∷ [])
  unfolding merkle_root merkle_loop
  root_duplicate n y z ys x h =
      let e = pair_level_duplicate (suc n) (y ∷ z ∷ ys) x (omega arith) in
      ap (merkle_loop combine (suc (length (ys ++ x ∷ [])))) e
      ∙ loop_fuel (suc (length (ys ++ x ∷ []))) (suc (length (ys ++ x ∷ x ∷ [])))
          (pair_level combine (y ∷ z ∷ (ys ++ x ∷ x ∷ [])))
          (omega (arith, ap (length {A = A}) e, length-pair_level y z (ys ++ x ∷ [])))
          (omega (arith, length-pair_level y z (ys ++ x ∷ x ∷ [])))
          (pair_level_pos y (z ∷ (ys ++ x ∷ x ∷ [])))
