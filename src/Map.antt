-- ===== src/Map.antt =====
-- `BTreeMap` and `HashMap` of the source: an association list in ascending key order. A `HashMap`
-- has no order of its own; where the source iterates over one, the model takes ascending keys.
mod Defs
pub mod Laws
pub mod Sorted
unfoldable pub use Defs.{
  Map, empty, get, insert, remove, contains_key, size, keys, values, get_or_zero, retain,
}
