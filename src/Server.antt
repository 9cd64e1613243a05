-- ===== src/Server.antt =====
-- The multithreaded web server of hw03-multithreaded-web-server, a module to each part.
pub mod Run
pub mod Threads
pub mod Queue
pub mod RwLock
pub mod Pool
pub mod Rio
pub mod Stats
pub mod Log
pub mod Request
