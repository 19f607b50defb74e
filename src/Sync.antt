-- ===== src/Sync.antt =====
pub mod Threads
pub mod Notification
pub mod BinSem
pub mod RecursiveMutex
pub mod CondVar
pub mod Managed
