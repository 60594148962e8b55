-- ===== src/Threads.antt =====
-- cxThreads: the shared map, the bounded queue, the thread pool and the read/write lock guards.
pub mod MutexMap
pub mod ThreadPool
pub mod Queue
pub mod RwLock
