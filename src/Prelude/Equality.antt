-- ===== src/Prelude/Equality.antt =====
-- Rust's `==` as an interface: a Boolean test that decides the path type, for numbers, texts, byte
-- strings and options of these.
use Prim.Native.Nat.{ℕ}
use Prim.Native.String.{String}
use blockhain_core.Prelude.Tests.{nat_eq, nat_eq_iff}
use mathlib.Core.Path.{◌≡◌, refl}
use mathlib.Core.Logic.{◌≢◌, ◌↔◌}
use mathlib.Core.Bool.{Bool, true, false, ◌&&◌}
use mathlib.Core.Option.{Option, none, some}
use mathlib.Core.List.{List, [], ◌∷◌}
use native.Mathlib.Omega.{arith}
use text.Mathlib.Text.{◌==◌ as str_eq}
use text.Mathlib.TextEquality.{eq_iff}

pub record Eq {ℓ} (A : Type ℓ) : Type ℓ where
  pub test : A → A → Bool
  pub test_iff : (x y : A) → (test x y ≡ true) ↔ (x ≡ y)

abbrev pub ◌==◌ {ℓ} : {K : Type ℓ} ⦃eq : Eq K⦄ → K → K → Bool
◌==◌ ⦃eq⦄ = eq.test

infix 50 ◌==◌
instance abbrev pub String-Eq : Eq String
String-Eq = record { test = str_eq; test_iff = eq_iff }

instance abbrev pub ℕ-Eq : Eq ℕ
ℕ-Eq = record { test = nat_eq; test_iff = nat_eq_iff }

module _ {ℓ} {A : Type ℓ} ⦃e : Eq A⦄ where
  abbrev pub list_eq : List A → List A → Bool
  list_eq [] [] = true
  list_eq [] (y ∷ ys) = false
  list_eq (x ∷ xs) [] = false
  list_eq (x ∷ xs) (y ∷ ys) = e.test x y && list_eq xs ys

  pub list_eq_iff : (xs ys : List A) → (list_eq xs ys ≡ true) ↔ (xs ≡ ys)
  list_eq_iff [] [] = ground arith
  list_eq_iff [] (y ∷ ys) = ground arith
  list_eq_iff (x ∷ xs) [] = ground arith
  list_eq_iff (x ∷ xs) (y ∷ ys) = ground (arith, e.test_iff x y, list_eq_iff xs ys)

  abbrev pub option_eq : Option A → Option A → Bool
  option_eq none none = true
  option_eq none (some y) = false
  option_eq (some x) none = false
  option_eq (some x) (some y) = e.test x y

  pub option_eq_iff : (x y : Option A) → (option_eq x y ≡ true) ↔ (x ≡ y)
  option_eq_iff none none = ground arith
  option_eq_iff none (some y) = ground arith
  option_eq_iff (some x) none = ground arith
  option_eq_iff (some x) (some y) = ground (arith, e.test_iff x y)

  pub eq_refl : (a : A) → (a == a) ≡ true
  eq_refl a = (e.test_iff a a).1 refl

  pub eq→path : (a b : A) → (a == b) ≡ true → a ≡ b
  eq→path a b = (e.test_iff a b).0

  pub path→eq : (a b : A) → a ≡ b → (a == b) ≡ true
  path→eq a b = (e.test_iff a b).1

  pub ne→false : (a b : A) → a ≢ b → (a == b) ≡ false
  ne→false a b h = ground (arith, e.test_iff a b)

  pub false→ne : (a b : A) → (a == b) ≡ false → a ≢ b
  false→ne a b h p = ground (arith, e.test_iff a b)

  pub eq_sym : (a b : A) → (a == b) ≡ (b == a)
  eq_sym a b = ground (arith, e.test_iff a b, e.test_iff b a)

instance abbrev pub Bytes-Eq : Eq (List ℕ)
Bytes-Eq = record { test = list_eq; test_iff = list_eq_iff }

instance abbrev pub Option-Eq : Eq (Option String)
Option-Eq = record { test = option_eq; test_iff = option_eq_iff }
