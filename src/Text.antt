-- ===== src/Text.antt =====
-- `str` and `char` of the Rust standard library, as far as the program uses them. A text is the
-- list of its characters (code points); its length and its bytes are those of its UTF-8 form.
pub mod Split
pub mod Number
pub mod Net
pub mod Hex
pub mod HexText
pub mod Utf8
mod Chars
unfoldable pub use Chars.*
