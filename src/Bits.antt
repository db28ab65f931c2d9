-- ===== src/Bits.antt =====
-- Binary digits of words: `&`, `|`, `^` and `!` digit by digit, at every width.
mod Step
mod Digit
mod Mask
unfoldable pub use Digit.*
pub use Mask.*
