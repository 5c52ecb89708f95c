-- ===== src/Prelude/Count.antt =====
-- The number of elements that pass a test, which no permutation changes.
use Prim.Native.Nat.{ℕ, ◌+◌, ◌<◌}
use mathlib.Core.Path.{◌≡◌, refl, ◌∙◌}
use mathlib.Core.Logic.{∥∥₁_elim}
use mathlib.Core.Bool.{Bool, true, false, ◌||◌}
use mathlib.Core.List.{List, [], ◌∷◌, ◌++◌, Perm, Permᴰ}
use native.Mathlib.Nat.{ℕ_set}
use native.Mathlib.Omega.{arith}
use wireguard_tools.Prelude.Tests.{if◌then◌else◌, ltb}
use wireguard_tools.Prelude.Lists.{any}

module _ {ℓ} {A : Type ℓ} where
  -- How many elements pass a test.
  abbrev pub count : (A → Bool) → List A → ℕ
  count p [] = 0
  count p (x ∷ xs) = (if p x then 1 else 0) + count p xs

  pub any-false : (p : A → Bool) (xs : List A) → count p xs ≡ 0 → any p xs ≡ false
  any-false p [] h = refl
  any-false p (x ∷ xs) h = ground (arith, any-false p xs)

  pub any-true : (p : A → Bool) (xs : List A) → 0 < count p xs → any p xs ≡ true
  any-true p [] h = absurd (omega arith)
  any-true p (x ∷ xs) h = ground (arith, any-true p xs)

  pub count-append : (p : A → Bool) (xs ys : List A) → count p (xs ++ ys) ≡ count p xs + count p ys
  count-append p [] ys = omega arith
  count-append p (x ∷ xs) ys = omega (arith, count-append p xs ys)

  pub any-append : (p : A → Bool) (xs ys : List A) → any p (xs ++ ys) ≡ (any p xs || any p ys)
  any-append p [] ys = refl
  any-append p (x ∷ xs) ys = ground (arith, any-append p xs ys)

  pub any_count : (p : A → Bool) (xs : List A) → any p xs ≡ ltb 0 (count p xs)
  any_count p [] = refl
  any_count p (x ∷ xs) = ground (arith, any_count p xs)

  count-permuted : (p : A → Bool) (xs ys : List A) → Permᴰ xs ys → count p xs ≡ count p ys
  count-permuted p xs ys Permᴰ.nil = refl
  count-permuted p xs ys (Permᴰ.cons {a} {b} {l₁} {l₂} e h) =
      rw e (omega (arith, count-permuted p l₁ l₂ h))
  count-permuted p xs ys (Permᴰ.swap e f) = rw (e, f) (omega arith)
  count-permuted p xs ys (Permᴰ.trans {l₁} {l₂} {l₃} h k) =
      count-permuted p l₁ l₂ h ∙ count-permuted p l₂ l₃ k

  pub count-perm : (p : A → Bool) (xs ys : List A) → Perm xs ys → count p xs ≡ count p ys
  count-perm p xs ys h = ∥∥₁_elim h (ℕ_set _ _) (count-permuted p xs ys)
