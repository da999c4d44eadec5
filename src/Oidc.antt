-- ===== src/Oidc.antt =====
-- The OpenID Connect provider of apps/minister, by the files that its requests pass through.
pub mod Authorize
pub mod Store
pub mod Claims
pub mod Token
pub mod ReMint
pub mod Userinfo
pub mod Profile
pub mod Grants
pub mod Consent
pub mod Flow
mod Example
mod Tests
