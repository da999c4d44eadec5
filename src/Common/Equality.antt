-- ===== src/Common/Equality.antt =====
-- Equality tests as an instance, so that one operator serves every type that the program compares.
use Prim.Native.Nat.{ℕ}
use Prim.Native.String.{String}
use mathlib.Core.Path.{◌≡◌, refl}
use mathlib.Core.Logic.{◌↔◌, inl, inr}
use mathlib.Core.Bool.{Bool, true, false, ◌||◌, ◌&&◌}
use mathlib.Core.Option.{Option, none, some}
use mathlib.Core.List.{List, [], ◌∷◌, ◌++◌}
use native.Mathlib.Omega.{arith}
use text.Mathlib.Text.{◌==◌ as same_text}
use text.Mathlib.TextEquality.{eq_iff}
use minister.Common.Tests.{nat_beq, nat_beq_iff, or-eq-true, if◌then◌else◌}
use minister.Common.Lists.{In, here, there}

-- JavaScript's `===` at a type of values.
pub record Comparable {ℓ} (A : Type ℓ) : Type ℓ where
  pub same : A → A → Bool
  pub same_iff : (a b : A) → (same a b ≡ true) ↔ (a ≡ b)

infix 50 ◌==◌
abbrev pub ◌==◌ {ℓ} : {A : Type ℓ} ⦃c : Comparable A⦄ → A → A → Bool
◌==◌ ⦃c⦄ x y = c.same x y

instance abbrev pub string_eq : Comparable String
string_eq = record { same = λ s t. same_text s t; same_iff = λ s t. eq_iff s t }

instance abbrev pub nat_eq : Comparable ℕ
nat_eq = record { same = λ n k. nat_beq n k; same_iff = λ n k. nat_beq_iff n k }

-- `null === null`, and two values that are the same.
abbrev pub same_option {ℓ} : {A : Type ℓ} → (A → A → Bool) → Option A → Option A → Bool
same_option f none none = true
same_option f (some x) (some y) = f x y
same_option f _ _ = false

module _ {ℓ} {A : Type ℓ} ⦃c : Comparable A⦄ where
  pub same_refl : (a : A) → (a == a) ≡ true
  same_refl a = (c.same_iff a a).1 refl

  -- `xs.includes(a)`, and `s.has(a)` for a set that is kept as the list of its values.
  abbrev pub includes : A → List A → Bool
  includes a [] = false
  includes a (x ∷ xs) = x == a || includes a xs

  -- `s.add(a)`: a set lists its values in the order of their first insertion.
  abbrev pub add : A → List A → List A
  add a xs = if includes a xs then xs else xs ++ a ∷ []

  pub includes→In : (a : A) (xs : List A) → includes a xs ≡ true → In a xs
  includes→In a [] h = cc
  includes→In a (x ∷ xs) h = elim (or-eq-true (x == a) (includes a xs) h) [
    | inl found ↦ let p : x ≡ a = (c.same_iff x a).0 found in rw p here
    | inr later ↦ there (includes→In a xs later)
  ]

  pub In→includes : {a : A} {xs : List A} → In a xs → includes a xs ≡ true
  In→includes {a} here = ground (arith, same_refl a)
  In→includes (there m) = ground (arith, In→includes m)

  includes-append : (t a : A) (xs : List A) → includes t (xs ++ a ∷ []) ≡ (includes t xs || a == t)
  includes-append t a [] = ground arith
  includes-append t a (x ∷ xs) = ground (arith, includes-append t a xs)

  pub includes-add : (t a : A) (xs : List A) → includes t (add a xs) ≡ (includes t xs || a == t)
  includes-add t a xs = ground (arith, includes-append t a xs, c.same_iff a t)

-- Keys of two columns.
unfoldable pub same_pair : String × String → String × String → Bool
same_pair p q = (p.0 == q.0) && (p.1 == q.1)

pub same_pair_iff : (p q : String × String) → (same_pair p q ≡ true) ↔ (p ≡ q)
unfolding same_pair
same_pair_iff (a, b) (c, d) = ground (arith, eq_iff a c, eq_iff b d)

instance abbrev pub pair_eq : Comparable (String × String)
pair_eq = record { same = λ p q. same_pair p q; same_iff = λ p q. same_pair_iff p q }
