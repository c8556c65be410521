-- ===== src/Tests.antt =====
-- Runs of the definitions at concrete inputs, and one instance of each result.
mod HttpMsg
mod HashTable
mod BitSet
mod Crawler
mod Utils
mod Buffer
mod HttpCli
mod SockProxy
mod IniFile
mod Slab
mod RawServer
mod UserRank
