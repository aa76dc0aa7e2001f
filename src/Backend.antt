-- ===== src/Backend.antt =====
-- src/core/backend_node.h, backend_node.cpp, backend_pool.h, backend_pool.cpp.
-- Backends are shared: `Nodes` is the store that a `std::shared_ptr<BackendNode>` points into.
pub mod Node
pub mod Exact
pub mod Float
pub mod Pool
