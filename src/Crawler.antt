-- ===== src/Crawler.antt =====
-- libspider/Crawler.cpp and Crawler.h: the crawler's shared state (TCrawler), its workers
-- (TSpiderWorker), and the filter on links. Each method that runs under one mutex is one function.
mod State
pub mod Html
pub mod Flush
pub mod FileName
pub mod Filter
pub mod Links
pub mod Worker
pub mod Threads
pub mod Queue
pub mod Alone
pub mod Rounds
pub mod Near
pub mod Depth
pub mod Visited
unfoldable pub use State.*
