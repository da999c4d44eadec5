-- ===== src/Oidc/Profile/Limits.antt =====
-- The limits on the profile values that pass.
use Prim.Native.Char.{Char, code}
use minister.Common.{
  ℕ, ◌≤◌, String, ◌≡◌, Bool, false, Option, none, some, arith, inl, inr, Bool-cases, is_space, trim,
  trim_start, trim_end, keep_unless_blank, units, string_eq, ◌==◌, given-rule, stop_if-rule,
}
use minister.Oidc.Profile.{
  max_display_name_length, max_avatar_url_length, is_control, strip_control_chars, clean,
  normalize_display_name, normalize_avatar_url_or_null, normalize_profile_input, NormalizedProfile,
}

-- No character of the text is a control character.
unfoldable pub IsPrintable : String → Type 0
IsPrintable String.[] = Unit
IsPrintable (String.◌∷◌ c s) = (is_control (code c) ≡ false) × IsPrintable s

strip_control_chars-IsPrintable : (s : String) → IsPrintable (strip_control_chars s)
unfolding strip_control_chars IsPrintable
strip_control_chars-IsPrintable String.[] = tt
strip_control_chars-IsPrintable (String.◌∷◌ c s) = elim (Bool-cases (is_control (code c))) [
  | inl control ↦ rw control (strip_control_chars-IsPrintable s)
  | inr other ↦ rw other (other, strip_control_chars-IsPrintable s)
]

trim_start-IsPrintable : (s : String) → IsPrintable s → IsPrintable (trim_start s)
unfolding trim_start IsPrintable
trim_start-IsPrintable String.[] h = tt
trim_start-IsPrintable (String.◌∷◌ c s) h = elim (Bool-cases (is_space (code c))) [
  | inl blank ↦ rw blank (trim_start-IsPrintable s h.1)
  | inr other ↦ rw other h
]

keep_unless_blank-IsPrintable :
    (c : Char) (s : String)
    → is_control (code c) ≡ false
    → IsPrintable s
    → IsPrintable (keep_unless_blank c s)
unfolding IsPrintable
keep_unless_blank-IsPrintable c String.[] h k = elim (Bool-cases (is_space (code c))) [
  | inl blank ↦ rw blank tt
  | inr other ↦ rw other (h, tt)
]
keep_unless_blank-IsPrintable c (String.◌∷◌ d s) h k = (h, k)

trim_end-IsPrintable : (s : String) → IsPrintable s → IsPrintable (trim_end s)
unfolding trim_end IsPrintable
trim_end-IsPrintable String.[] h = tt
trim_end-IsPrintable (String.◌∷◌ c s) h =
    keep_unless_blank-IsPrintable c (trim_end s) h.0 (trim_end-IsPrintable s h.1)

clean-IsPrintable : (s : String) → IsPrintable (clean s)
unfolding clean trim
clean-IsPrintable s =
    trim_end-IsPrintable (trim_start (strip_control_chars s))
      (trim_start-IsPrintable (strip_control_chars s) (strip_control_chars-IsPrintable s))

-- A value that is missing or fits.
unfoldable pub Fits : ℕ → Option String → Type 0
Fits limit none = Unit
Fits limit (some text) = (units text ≤ limit) × ((text == "") ≡ false) × IsPrintable text

unfoldable FitsIfAny : ℕ → Option (Option String) → Type 0
FitsIfAny limit none = Unit
FitsIfAny limit (some value) = Fits limit value

normalize_display_name-FitsIfAny :
    (raw : String) → FitsIfAny max_display_name_length (normalize_display_name raw)
unfolding normalize_display_name FitsIfAny Fits
normalize_display_name-FitsIfAny raw =
    let P = FitsIfAny max_display_name_length in
    stop_if-rule P _ _ _ (λ _. tt)
      (λ full.
        stop_if-rule P _ _ _ (λ _. tt)
          (λ short. (ground (arith, short), full, clean-IsPrintable raw)))

module _ (protocol : String → Option String) (to_lower : String → String)
    (is_email : String → Bool) where
  normalize_avatar_url_or_null-FitsIfAny :
      (raw : String)
      → FitsIfAny max_avatar_url_length
          (normalize_avatar_url_or_null protocol to_lower is_email raw)
  unfolding normalize_avatar_url_or_null FitsIfAny Fits
  normalize_avatar_url_or_null-FitsIfAny raw =
      let P = FitsIfAny max_avatar_url_length in
      stop_if-rule P _ _ _ (λ _. tt)
        (λ full.
          stop_if-rule P _ _ _ (λ _. tt)
            (λ short.
              given-rule P _ _ _ (λ _. tt)
                (λ scheme _.
                  stop_if-rule P _ _ _ (λ _. tt)
                    (λ _. (ground (arith, short), full, clean-IsPrintable raw)))))

  unfoldable ProfileFits : Option NormalizedProfile → Type 0
  ProfileFits none = Unit
  ProfileFits (some p) =
      Fits max_display_name_length p.display_name × Fits max_avatar_url_length p.avatar_url

  normalize_profile_input-ProfileFits :
      (display_name avatar_url : String)
      → ProfileFits (normalize_profile_input protocol to_lower is_email display_name avatar_url)
  unfolding normalize_profile_input ProfileFits FitsIfAny
  normalize_profile_input-ProfileFits display_name avatar_url =
      given-rule ProfileFits _ _ _ (λ _. tt)
        (λ name named.
          given-rule ProfileFits _ _ _ (λ _. tt)
            (λ picture pictured. (
              (let fits : FitsIfAny max_display_name_length (normalize_display_name display_name) =
                    normalize_display_name-FitsIfAny display_name in
                  rw named at fits),
              (let fits : FitsIfAny max_avatar_url_length
                      (normalize_avatar_url_or_null protocol to_lower is_email avatar_url) =
                    normalize_avatar_url_or_null-FitsIfAny avatar_url in
                  rw pictured at fits),
            )))

  -- Profile values that are accepted: a display name, if there is one, has 1 to 80 units and a link
  -- to a picture, if there is one, 1 to 2048; neither has a control character.
  pub normalize_profile_input-Fits :
      (display_name avatar_url : String) (p : NormalizedProfile)
      → normalize_profile_input protocol to_lower is_email display_name avatar_url ≡ some p
      → Fits max_display_name_length p.display_name × Fits max_avatar_url_length p.avatar_url
  unfolding ProfileFits
  normalize_profile_input-Fits display_name avatar_url p e =
      let fits : ProfileFits
          (normalize_profile_input protocol to_lower is_email display_name avatar_url) =
        normalize_profile_input-ProfileFits display_name avatar_url in
      rw e at fits
