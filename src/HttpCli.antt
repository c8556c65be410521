-- ===== src/HttpCli.antt =====
-- THttpCli (libspider/HttpCli.cpp): reading and writing HTTP over a socket. A connection is the bytes
-- that have arrived and are not read yet, and what the system will give after them.
pub mod Body
pub mod Chunk
pub mod Conn
pub mod Hdrs
pub mod Lines
pub mod Page
pub mod Request
pub mod Response
pub mod Total
