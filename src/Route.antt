-- ===== src/Route.antt =====
-- pkg/route: the longest-prefix-match route table (table.go, table_helpers.go) and the part of
-- route.go that it reads.
pub mod Address
pub mod Prefix
pub mod Trie
pub mod Table
