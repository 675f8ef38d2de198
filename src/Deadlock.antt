-- ===== src/Deadlock.antt =====
-- The deadlock detector: deadlock_success.c under 3.2高性能组件/3.2.4手写死锁检测组件/src/example.
-- `Graph` is the graph of threads that wait for threads, `Cycle` the search for a cycle in it, and
-- `Locks` the bookkeeping round a mutex that builds the graph.
pub mod Graph
pub mod Cycle
pub mod Locks
pub mod Tests
