-- ===== src/Jws.antt =====
-- jwt/api_jws.py: signed messages.
pub mod State
pub mod StateLaws
pub mod Headers
pub mod Load
pub mod LoadLaws
pub mod Verify
pub mod Coverage
pub mod VerifyLaws
pub mod Security
pub mod KeySecurity
pub mod KeyRoundTrip
pub mod JwkRoundTrip
pub mod JwkSecurity
pub mod Encode
pub mod HeaderLaws
pub mod SigningLaws
pub mod Matching
pub mod RoundTrip
