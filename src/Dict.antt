-- ===== src/Dict.antt =====
-- Python's built-in `dict`: the entries in the order in which their keys were first inserted.
mod Laws
mod Unique
pub use Laws.*
pub use Unique.*
unfoldable pub use Defs.{Dict, empty, get, get_or, put, remove, contains, keys, is_some, or_else}
mod Defs
