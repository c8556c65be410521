-- ===== src/Utils.antt =====
-- libspider/Utils.cpp: the codecs, numbers, times and paths of the crawler's helpers.
pub mod Url
pub mod Base64
pub mod Numbers
pub mod Paths
pub mod ReadLine
pub mod Chars
