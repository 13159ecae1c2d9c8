-- ===== src/Iam.antt =====
-- exordos_core/user_api/iam and exordos_core/iam: identity and access management.
pub mod Account
pub mod Directory
pub mod Token
pub mod Base64
pub mod Oidc
pub mod ServiceToken
