-- ===== src/Map.antt =====
-- `std::unordered_map`, as an association list with the operations that the server calls. The
-- standard leaves the order of its elements open: here it is the order of insertion.
mod Laws
pub use Laws.*
pub mod Defs
pub use Defs.{Map, UniqueKeys}
unfoldable pub use Defs.{lookup, insert, erase, adjust}
