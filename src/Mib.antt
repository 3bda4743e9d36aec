-- ===== src/Mib.antt =====
-- The MIB: the tree of registered nodes (core/mib_tree.c) and the views of it (core/mib_view.c).
pub mod Tree
pub mod View
pub mod User
pub mod Instance
pub mod Search
pub mod Next
