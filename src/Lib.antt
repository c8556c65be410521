-- ===== src/Lib.antt =====
-- A model of crowdspider, a multi-threaded web crawler in C++, with the theorems that hold of it.
--
-- Parts. libspider/Crawler.cpp holds the crawler: a queue of URLs with their depth, three vectors of
-- hosts and URLs that checkUrl searches and appends to files, and a sequence number for the files that
-- pages are saved in. Worker threads take URLs from the queue, download a page through
-- libspider/HttpCli.cpp, which builds its requests from libspider/HttpMsg.cpp, extract the links with
-- the HTML library, filter them and put them back one level deeper. libspider/HashTable.cpp is a table
-- of bits for URLs and pages seen. libspider/BitSet.cpp, libspider/Buffer.cpp and libspider/Utils.cpp
-- are the helpers: sets of bits, byte buffers and strings, and codecs and conversions.
-- libspider/SockProxy.cpp speaks to SOCKS proxies for the HTTP client. Beside the crawler,
-- libspider/Slab.cpp hands out memory from caches of slabs, which stand in the rings of
-- libspider/List.cpp, libspider/RawServer.cpp is a server that waits for events by
-- libspider/Poller.cpp, and build/UserRank.cpp ranks users by the links between them.
--
-- Files and source.
--   Crawler        libspider/Crawler.cpp, libspider/Crawler.h: State is TCrawler with checkUrl and
--                  fetchUrl, Worker the two halves of TSpiderWorker's loop around the download as one
--                  thread runs them, Threads the steps of any number of workers, Alone and Rounds how
--                  the halves are runs of these steps, Near how far URLs are from the start, Links
--                  parseHyperlinks, Filter IsFilterLink, FileName the name of a saved page; Html is the
--                  record of what the code uses of the HTML library.
--   HttpMsg        libspider/HttpMsg.cpp, libspider/HttpMsg.h: THttpHdr and THttpMsg.
--   HashTable      libspider/HashTable.cpp: Codes the hash codes, Seen test, set and testSet, Backup
--                  saveToFile and the constructor that reads the file.
--   BitSet         libspider/BitSet.cpp: TBitSet, and Reversed TRevBitSet.
--   Buffer         libspider/Buffer.cpp, libspider/Buffer.h: Block and Ops TBuffer, Store assignment
--                  between objects that may be the same, Text TString, Quote DeQuote, Order Compare and
--                  the comparison operators.
--   Utils          libspider/Utils.cpp: Url UrlEncode and UrlDecode, Base64 the two encoders and the
--                  decoder, Numbers itoa, StrToInt, set_nl and get_nl, Paths file names and letter
--                  case, ReadLine readLineEx, Chars StrLen, StrCmp and StrCpy.
--   HttpCli        libspider/HttpCli.cpp: Conn Recv and ReadLine over what a connection gives, Lines and
--                  Response recvHttpResponse, Hdrs the getters, Request sendHttpRequest and the headers
--                  of a request, Chunk fetchHtmlChunk, Body fetchHtmlFile, Page the sessions of
--                  fetchHtmlPage.
--   SockProxy      libspider/SockProxy.cpp: the requests, PackGet and PackSize, Send SendPacket over
--                  TcpSocket::Send (libspider/Socket.cpp), Reply RecvPacket, RecvOK and RecvDestroy,
--                  Connect the SOCKS branches of connectProxyHost (libspider/HttpCli.cpp).
--   IniFile        libspider/IniFile.cpp: the map of sections and keys with read, write and erase, the
--                  text of save_config, and Parse parse_config.
--   ListHead       libspider/List.cpp, libspider/List.h: ListHead over the pointers of all items, Segment
--                  and Ring the lists that stand in them.
--   Slab           libspider/Slab.cpp, libspider/Slab.h: OBJ, SLAB and Cache by their addresses with
--                  reclaim and reclaimAll, Objects newSlab, allocObj, freeObj and the destructor, Freed
--                  and Fresh what they do to a ring of slabs.
--   RawServer      libspider/RawServer.cpp, libspider/Poller.cpp, and the members of
--                  libspider/Socket.cpp that they use: handleEvent, Init with start and poll of the
--                  poller; Valid and Steps the server between events.
--   UserRank       build/UserRank.cpp: addLink and checkMatrixSelfLoop, Loops its chains of links, Build
--                  buildMatrix, Compute the loop of computeUserRank, with double as the record Num of its
--                  operations, of which no law is assumed.
--   Base           the names all modules share, lists and searches over the native numbers, tables of
--                  bytes, and signed integers.
--   Tests          runs at concrete inputs and one instance of each result.
--
-- Correspondence. A C string or std::string is a list of bytes, a vector or std::list a list, an object
-- a record of its fields, and a method a function from the object to its result and the new object.
-- Arithmetic on unsigned types wraps as written; `none` stands for an access outside an allocation, for
-- a signed overflow, or for an exception. size_t has 64 bits and int 32, and char is signed.
--
-- Bounds. Loops run over the list they read. Those on a number have fuel: 20 steps write the digits of a
-- sequence number below 2^32, and 24 those of an int, the room that itoa reserves. The loops over a
-- connection have fuel above the number of bytes that are to come, since each round that goes on takes
-- at least one. The walks along links have fuel for each entry of the map, and the loop of
-- computeUserRank, which ends where floating point lets it, for the rounds until it does.
--
-- Connections. A connection is the bytes that have arrived and a list of what the system gives after
-- them: segments, interruptions and errors, and its end where the list ends. What a send takes is such a
-- list too. htons and its kin are those of a little-endian machine.
--
-- Interleavings. Each critical section of a worker is a step, and so is what it does between two of
-- them: the test of m_running, fetchUrl, the three sections of checkUrl, getfileseq, the saving of a
-- result. uq_mutex is held from the first link of a page to the last, across the calls of checkUrl, and
-- fetch_mutex during a download; no other worker takes them meanwhile. A worker that waits in fetchUrl
-- when the crawler is stopped still takes an entry. The download is a parameter: its result is
-- arbitrary, and the page is one that the relation `serves` has for the URL. An exception ends the
-- program, so that no step follows it.
--
-- Files and events. What the calls of write and read give is a list as well, and so are the events that
-- epoll reports with the descriptors that accept returns; the theorems say which lists they are about.
--
-- Memory. The heads of lists, the slabs, the objects and the caches are tables by address with those
-- that are in use, and an access to another address is `none`. malloc gives any addresses or fails.
--
-- Not modelled: the system calls around the sockets, address lookup and SSL; threads and logging, which
-- mostly wrap system calls; the digests; the sorting and printing of the ranks of users, and the other
-- programs of build, which are command lines around the library; the class Uri and the HTML library, a
-- copy of another project, of which only the records Html and UriParts are assumed.
pub mod Base
pub mod HttpMsg
pub mod Crawler
pub mod HashTable
pub mod BitSet
pub mod Buffer
pub mod HttpCli
pub mod SockProxy
pub mod IniFile
pub mod Tests
pub mod Utils
pub mod ListHead
pub mod Slab
pub mod RawServer
pub mod UserRank
