-- ===== src/Base/Int.antt =====
-- Go's signed machine integers. `int64` holds money; `int` holds counts and rates, at the 32 bits of
-- the released builds (README.md, "32-bit"). Every operation wraps round, as Go's does.
mod Core
mod Wrap
unfoldable pub use Core.*
unfoldable pub use Wrap.*
