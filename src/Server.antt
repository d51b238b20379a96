-- ===== src/Server.antt =====
-- Servers for many connections: StringEcho4_shutdown/Server over `select` and StringEcho5_poll/Server over
-- `poll`, with the table of clients in Table, those that fork for each connection, the parent of
-- server/serv05, and the thread pool of server/serv08.
pub mod Table
pub mod SelectEcho
pub mod Prefork
pub mod Ring
pub mod Poll
pub mod Forks
