-- ===== src/Prelude/Without.antt =====
-- A list without the first occurrence of an element, to count elements that differ.
use Prim.Native.Nat.{suc}
use mathlib.Core.Path.{◌≡◌}
use mathlib.Core.Logic.{◌≢◌}
use mathlib.Core.Bool.{true}
use mathlib.Core.List.{List, [], ◌∷◌}
use native.Mathlib.Omega.{arith}
use scale_cluster_agent.Prelude.Tests.{Eq, ◌==◌, if◌then◌else◌}
use scale_cluster_agent.Prelude.Lists.{length, contains}

module _ {ℓ} {A : Type ℓ} ⦃e : Eq A⦄ where
  pub without : A → List A → List A
  without x [] = []
  without x (y ∷ ys) = if y == x then ys else y ∷ without x ys

  pub length-without :
      (x : A) (ys : List A) → contains ys x ≡ true → length ys ≡ suc (length (without x ys))
  unfolding without
  length-without x [] h = cc
  length-without x (y ∷ ys) h = ground (arith, length-without x ys)

  pub contains-without :
      (x z : A) (ys : List A) → x ≢ z → contains ys z ≡ true → contains (without x ys) z ≡ true
  unfolding without
  contains-without x z [] ne h = h
  contains-without x z (y ∷ ys) ne h = ground (arith, contains-without x z ys ne)
