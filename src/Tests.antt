-- ===== src/Tests.antt =====
-- Concrete inputs of the program, and the theorems at them.
mod Fixtures
mod SmallKeys
mod SmallKeyLaws
mod KeyFixtures
mod KeyTests
mod KeyPairTests
mod HelpTests
mod NumberTests
mod JwkPairTests
mod JwsTests
mod SigningTests
mod JwtTests
mod JwtEncodeTests
mod CodecTests
mod TableTests
mod KeySetTests
mod ClientTests
mod KeyCacheTests
mod RotationTests
