-- ===== src/Common/Guards.antt =====
-- Early returns: a handler that stops with a result, or goes on with what a check has found.
use Prim.Native.String.{String}
use mathlib.Core.Path.{◌≡◌, refl}
use mathlib.Core.Bool.{Bool, true, false}
use mathlib.Core.Option.{Option, none, some}
use mathlib.Core.Logic.{inl, inr, ◌≢◌}
use minister.Common.Tests.{if◌then◌else◌, Bool-cases}
use minister.Common.Equality.{◌==◌, string_eq}

module _ {ℓ κ} {A : Type ℓ} {R : Type κ} where
  -- `if (!found) return stop`
  unfoldable pub given : Option A → R → (A → R) → R
  given none stop k = stop
  given (some a) stop k = k a

  pub given-rule {μ} :
      (P : R → Type μ) (found : Option A) (stop : R) (k : A → R)
      → (found ≡ none → P stop)
      → ((a : A) → found ≡ some a → P (k a))
      → P (given found stop k)
  unfolding given
  given-rule P none stop k s h = s refl
  given-rule P (some a) stop k s h = h a refl

not_empty : (text t : String) → some text ≡ some t → (text == "") ≡ true → (t == "") ≢ false
not_empty text t e h f = cc

module _ {κ} {R : Type κ} where
  -- `if (b) return stop`
  unfoldable pub stop_if : Bool → R → R → R
  stop_if b stop k = if b then stop else k

  pub stop_if-rule {μ} :
      (P : R → Type μ) (b : Bool) (stop k : R)
      → (b ≡ true → P stop)
      → (b ≡ false → P k)
      → P (stop_if b stop k)
  unfolding stop_if
  stop_if-rule P true stop k s h = s refl
  stop_if-rule P false stop k s h = h refl

  -- `if (!text) return stop`: a text that is missing or empty.
  unfoldable pub required : Option String → R → (String → R) → R
  required none stop k = stop
  required (some text) stop k = if text == "" then stop else k text

  pub required-rule {μ} :
      (P : R → Type μ) (found : Option String) (stop : R) (k : String → R)
      → (((text : String) → found ≡ some text → (text == "") ≢ false) → P stop)
      → ((text : String) → found ≡ some text → (text == "") ≡ false → P (k text))
      → P (required found stop k)
  unfolding required
  required-rule P none stop k s h = s (λ text e f. cc)
  required-rule P (some text) stop k s h = elim (Bool-cases (text == "")) [
    | inl empty ↦ rw empty (s (λ t e f. not_empty text t e empty f))
    | inr full ↦ rw full (h text refl full)
  ]
