-- ===== src/Utils.antt =====
-- jwt/utils.py, one child for each group of functions.
pub mod Text
pub mod Base64
pub mod Base64Laws
pub mod Numbers
pub mod NumbersLaws
pub mod KeyFormats
pub mod Signatures
pub mod SignatureLaws
pub mod DerSignatureLaws
pub mod Ascii
pub mod Utf8
pub mod Utf8Laws
pub mod RawSignatureLaws
