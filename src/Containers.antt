-- ===== src/Containers.antt =====
-- The standard library's collections, as the code uses them: `BTreeSet<u64>` is a sorted list,
-- `BTreeMap<u64, V>` a list of pairs sorted by key, and `HashMap<K, V>` a list of pairs.
pub mod OrderedSet
pub mod OrderedMap
pub mod KeyMap
