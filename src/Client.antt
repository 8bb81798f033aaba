-- ===== src/Client.antt =====
-- jwt/jwk_set_cache.py and jwt/jwks_client.py: key sets fetched from an endpoint, with a cache.
pub mod Cache
pub mod CacheLaws
pub mod Fetch
pub mod FetchLaws
pub mod OutageLaws
pub mod RotationLaws
pub mod FromJwt
pub mod FromJwtLaws
pub mod KeyCache
pub mod KeyCacheLaws
pub mod CachedFromJwtLaws
