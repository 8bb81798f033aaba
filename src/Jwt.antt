-- ===== src/Jwt.antt =====
-- jwt/api_jwt.py: JSON Web Tokens, that is JSON claims in a signed message.
pub mod Numbers
pub mod Options
pub mod Claims
pub mod ClaimsSpec
pub mod TimeLaws
pub mod PartyLaws
pub mod AudienceLaws
pub mod ClaimsLaws
pub mod Decode
pub mod Encode
pub mod DecodeLaws
pub mod OptionLaws
pub mod MergeLaws
pub mod TimeClaims
pub mod TimeClaimsLaws
pub mod RoundTrip
pub mod NumberErrors
pub mod PartyErrors
pub mod ErrorLaws
