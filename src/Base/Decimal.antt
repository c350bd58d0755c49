-- ===== src/Base/Decimal.antt =====
-- `strconv.Itoa`, `strconv.FormatInt`, `strconv.Atoi` and fmt's `%d` and `%02d`.
mod Digits
mod RoundTrip
pub mod Lengths
unfoldable pub use Digits.*
pub use RoundTrip.*
