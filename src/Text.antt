-- ===== src/Text.antt =====
-- Text of the program: a `&str` or `String` is the list of its code points. The children model the
-- methods of Rust's `char`, `str` and integers that the source calls.
mod Chars
mod Slices
mod Pieces
mod Numbers
mod SliceLaws
mod WordLaws
mod LineLaws
mod DecimalRoundTrip
unfoldable pub use Chars.*
unfoldable pub use Slices.*
unfoldable pub use Pieces.*
unfoldable pub use Numbers.*
pub use DecimalRoundTrip.*
pub use LineLaws.*
pub use SliceLaws.*
pub use WordLaws.*
