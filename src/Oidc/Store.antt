-- ===== src/Oidc/Store.antt =====
-- The tables that the OpenID Connect endpoints of apps/minister read and write, as its Prisma schema
-- declares them. A row stands under its unique key; times are milliseconds.
use minister.Common.{ℕ, String, Bool, Option, List, Entries}
use minister.Oidc.Authorize.{Client}
use minister.Policy.{AttrValue}

pub record AuthCode : Type 0 where
  pub client_id : String
  pub user_id : String
  pub redirect_uri : String
  pub scopes : List String
  pub approved_badge_ids : List String
  pub profile_name : Bool
  pub profile_avatar : Bool
  pub sybil_score : Bool
  pub sybil_bucket : Option ℕ
  pub anon_epoch : Option ℕ
  pub nonce : String
  pub code_challenge : String
  pub code_challenge_method : String
  pub expires_at : ℕ
  pub consumed_at : Option ℕ

pub record AccessToken : Type 0 where
  pub user_id : String
  pub client_id : String
  pub scopes : List String
  pub approved_badge_ids : List String
  pub profile_name : Bool
  pub profile_avatar : Bool
  pub sybil_score : Bool
  pub sybil_bucket : Option ℕ
  pub anon_epoch : Option ℕ
  pub expires_at : ℕ
  pub revoked_at : Option ℕ

pub record User : Type 0 where
  pub display_name : Option String
  pub avatar_url : Option String
  pub merged_into_user_id : Option String
  pub dedup_handle : Option String

-- The persona that a user shows to one app.
pub record ProfileOverride : Type 0 where
  pub display_name : Option String
  pub avatar_url : Option String

-- A value of a badge's attributes: a text, a number or a Boolean, or anything else that JSON has.
pub data Attribute : Type 0 where
  plain : AttrValue → Attribute
  structured : Attribute

-- A stored badge; attributes that are no object count as none.
pub record Badge : Type 0 where
  pub id : String
  pub user_id : String
  pub issuer : String
  pub vc_jwt : String
  pub expires_at : Option ℕ
  pub nullifier_ref : Option String
  pub badge_type : String
  pub attributes : Entries String Attribute
  pub issued_at : ℕ
  pub status_anchor : Option String

-- What a user has granted to an app, over all consents.
pub record Grant : Type 0 where
  pub badge_types : List String
  pub badge_ids : List String
  pub profile_name : Bool
  pub profile_avatar : Bool
  pub sybil_score : Bool

-- Overrides, grants and subjects stand under the user and the client, memberships under the group
-- and the user, with the role; enrollments hold the epoch of a user's anonymous seed. The table of
-- overrides may be missing.
pub record Store : Type 0 where
  pub clients : Entries String Client
  pub codes : Entries String AuthCode
  pub tokens : Entries String AccessToken
  pub users : Entries String User
  pub overrides : Option (Entries (String × String) ProfileOverride)
  pub grants : Entries (String × String) Grant
  pub subjects : Entries (String × String) String
  pub badges : List Badge
  pub memberships : Entries (String × String) String
  pub enrollments : Entries String ℕ
