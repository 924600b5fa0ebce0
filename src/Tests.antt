-- ===== src/Tests.antt =====
-- Concrete pools, tasks and buffers, and what the definitions and the theorems say of them.
mod Pools
mod Requests
mod Transfers
