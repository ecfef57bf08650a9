-- ===== src/Collections.antt =====
-- The standard library's ordered collections, as the program uses them. A `BTreeSet` is the list of
-- its elements in ascending order, a `BTreeMap` the list of its entries in ascending order of keys:
-- that order is the one in which the program's loops visit them.
pub mod Set
pub mod Map
pub mod Sort
