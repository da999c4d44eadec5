-- ===== src/Oidc/Profile.antt =====
-- apps/minister/src/server/profile-validation.ts: the profile values that a user types. A throw is
-- `none`.
pub mod Limits
use Prim.Native.Char.{code}
use Prim.Native.String
use minister.Common.{
  ℕ, String, Bool, ◌&&◌, ◌||◌, not, Option, none, some, leb, ltb, nat_beq, if◌then◌else◌, trim,
  units, string_eq, ◌==◌, given, stop_if,
}

abbrev pub max_display_name_length : ℕ
max_display_name_length = 80

abbrev pub max_avatar_url_length : ℕ
max_avatar_url_length = 2048

abbrev pub max_email_length : ℕ
max_email_length = 254

unfoldable pub is_control : ℕ → Bool
is_control c = leb c 0x1f || nat_beq c 0x7f || (leb 0x80 c && leb c 0x9f)

unfoldable pub strip_control_chars : String → String
strip_control_chars String.[] = ""
strip_control_chars (String.◌∷◌ c s) =
    if is_control (code c) then strip_control_chars s else String.◌∷◌ c (strip_control_chars s)

unfoldable pub clean : String → String
clean raw = trim (strip_control_chars raw)

unfoldable pub normalize_display_name : String → Option (Option String)
normalize_display_name raw =
    stop_if (clean raw == "") (some none)
      (stop_if (ltb max_display_name_length (units (clean raw))) none (some (some (clean raw))))

-- What a user chose for a picture.
pub data AvatarSelection : Type 0 where
  deterministic : AvatarSelection
  gravatar : String → AvatarSelection
  url : String → AvatarSelection
  uploaded : AvatarSelection

pub record NormalizedProfile : Type 0 where
  pub display_name : Option String
  pub avatar_url : Option String

pub record NormalizedEditor : Type 0 where
  pub display_name : Option String
  pub avatar : AvatarSelection

-- `protocol` is the protocol of `new URL(text)`, `to_lower` is `toLowerCase`, and `is_email` the
-- test of the pattern of an email address.
module _ (protocol : String → Option String) (to_lower : String → String)
    (is_email : String → Bool) where
  unfoldable pub normalize_avatar_url_or_null : String → Option (Option String)
  normalize_avatar_url_or_null raw = stop_if (clean raw == "") (some none) (
      stop_if (ltb max_avatar_url_length (units (clean raw))) none (
        given (protocol (clean raw)) none
          (λ scheme. stop_if (not (scheme == "https:")) none (some (some (clean raw))))))

  unfoldable pub normalize_gravatar_email : String → Option String
  normalize_gravatar_email raw =
      let cleaned = to_lower (clean raw) in
      stop_if (cleaned == "") none (
        stop_if (ltb max_email_length (units cleaned)) none
          (stop_if (not (is_email cleaned)) none (some cleaned)))

  unfoldable pub normalize_profile_input : String → String → Option NormalizedProfile
  normalize_profile_input display_name avatar_url =
      given (normalize_display_name display_name) none (λ name.
        given (normalize_avatar_url_or_null avatar_url) none
          (λ picture. some (record { display_name = name; avatar_url = picture })))

  unfoldable pub normalize_avatar : AvatarSelection → Option AvatarSelection
  normalize_avatar deterministic = some deterministic
  normalize_avatar (url link) =
      given (normalize_avatar_url_or_null link) none
        (λ checked. given checked none (λ link. some (url link)))
  normalize_avatar (gravatar email) =
      given (normalize_gravatar_email email) none (λ address. some (gravatar address))
  normalize_avatar uploaded = some uploaded

  unfoldable pub normalize_profile_editor_input : String → AvatarSelection → Option NormalizedEditor
  normalize_profile_editor_input display_name avatar =
      given (normalize_display_name display_name) none (λ name.
        given (normalize_avatar avatar) none
          (λ selected. some (record { display_name = name; avatar = selected })))
