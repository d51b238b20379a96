-- ===== src/Lib.antt =====
-- Verification of the network programs: the examples of "UNIX Network Programming" in C++.
--
-- The repository is a library of functions that many small programs share (the files at its root)
-- and the programs, one directory each. What is modelled here is the library's core and the
-- programs that keep a state of their own.
--
-- - Prelude (with Prelude/Tests, Prelude/Lists and Prelude/Int): shared names, Boolean tests, lists
--   and signed integers over the native numbers.
-- - Sys: results of system calls, and how a function ends: it returns (`done`), `err_sys` or
--   `err_quit` ends the process (`exits`), it waits for a system call that has no result yet
--   (`waits`), or it reads what was never written, or writes or reads out of an array or a
--   descriptor set (`fault`).
-- - Stream: readn.cpp (Stream/Readn), writen.cpp (Stream/Writen) and readline.cpp with its static
--   buffer (Stream/Readline): `readn`, `writen`, `my_read`, `readline`. Stream/Supply is the stream
--   of bytes that a list of results of `read` stands for.
-- - Echo: str_echo.cpp, dg_echo.cpp and dg_cli.cpp. Client: the three clients of str_cli.cpp.
-- - Errors: error.cpp. Passing: read_fd.cpp, write_fd.cpp, unixdomain/myopen.cpp,
--   unixdomain/openfile and the start and the loop of the child of server/child05.cpp.
-- - Interfaces: get_ifi_info.cpp, as it is built on Linux with 64 bits; what stands in its buffer behind
--   the bytes that the kernel stored is a parameter.
-- - WebChild: the service of server/web_clild.cpp with the requests of server/client.
-- - Wrap: wrapsock.cpp (Wrap/Sock, Wrap/Transfer), wrapunix.cpp (Wrap/Unix, Wrap/Transfer),
--   wrappthread.cpp (Wrap/Threads), wrapstdio.cpp and wraplib.cpp (Wrap/Stdio). The wrapper `Bind`
--   is `bind_or_exit`, and so on.
-- - Resolve: tcp_connect.cpp, tcp_listen.cpp, udp_client.cpp and udp_server.cpp.
-- - Connect: `connect_nonb` of connect_nonb.cpp.
-- - Address: the operations on socket addresses, sock_get_port.cpp to sock_bind_wild.cpp.
-- - Ntop: sock_ntop.cpp and sock_ntop_host.cpp.
-- - Multicast: mcast_join.cpp, mcast_set_loop.cpp and sockfd_to_family.cpp.
-- - Checksum: in_cksum.cpp, which ping and the raw DNS query use.
-- - RawUdp: udpchsum/udpwrite.cpp and udpchsum/udpread.cpp, with the `udpiphdr` of BSD.
-- - Time: `tv_sub` of ping/main.cpp, which traceroute has too.
-- - Sntp: mcast/sntp/sntp_proc.cpp. Sdr: the loop of mcast/mysdr.
-- - Rtt: rtt.cpp and unprtt.h, and in Rtt/Request `dg_send_recv` of rtt/dg_send_recv.cpp.
-- - Packet: headers in a received packet. Icmpd: the daemon of icmpd/main.cpp,
--   its loop in Icmpd/Loop.
-- - Ping: echo requests and answers of ping/main.cpp. Traceroute: `traceloop` of
--   traceroute/main.cpp, with `recv_v4` in Traceroute/Receive.
-- - Heartbeat: the signal handlers of oob/heartbeat_cli and oob/heartbeat_serv.
-- - Relay: `str_cli` of nonblock/str_cli_nonblock.cpp, with one of its two buffers in Relay/Buffer.
-- - Web: the client of nonblock/webclient that fetches several files at a time, without `home_page`.
-- - Server: the echo server of StringEcho4_shutdown/Server over `select` (Server/SelectEcho, with
--   its table of clients in Server/Table) and that of StringEcho5_poll/Server over `poll`
--   (Server/Poll), the parents that fork for each connection, of StringEcho2/Server and
--   unixdomain/strserver01, with the handlers of SIGCHLD (Server/Forks), the parent of
--   server/serv05 that hands connections to its children (Server/Prefork), and the queue from
--   which the threads of server/serv08 take connections (Server/Ring). The steps of the threads,
--   and those of a parent and its children, are relations.
--
-- The kernel is no code of the repository. A model takes the results of its system calls as a
-- list in the order of the calls, or as a record of functions for one round of a loop. The
-- theorems name what they use of it: `read` returns no more than was asked for (`Within`),
-- `write` takes no more than it was given (`Takes`, `Short`), both for the relay (`IsPosix`),
-- a new descriptor is in no use (`Fresh`) and has a bit in the sets, a system call that failed
-- returned -1 (`Answer`), `close` and `setsockopt` do not fail (`Sound`), no call of a round
-- of the prefork parent or of the web client fails (`Works`, `Starts`) and a request is taken
-- whole (`IsSent`), the calls of a side of the heartbeat succeed (`CliSound`, `ServSound`),
-- the kernel takes the bytes that are echoed (`Kind`, `Answered`), `accept` is only
-- interrupted and `fork` succeeds (`Welcome`), the calls of a client succeed and its server
-- closes last (`Finishes`), a line is typed and sent (`Typed`), packets go out and each wait
-- of traceroute ends by the alarm (`IsWilling`, `Awaited`), `syslog` takes a format without a
-- `%` for its text, and `inet_ntop` writes no colon (`Plain`). Floating-point arithmetic is a
-- record of operations (`Floats`), of which `Compares` is used.
--
-- Loops that end by themselves are recursion on the list they walk. A loop that waits for the
-- kernel is recursion on the list of results, one round for each, and ends as `waits` where the
-- list is too short; the theorems say which results are enough. The loops of traceroute count down
-- what is left to `max_ttl` and `nprobes`, `walk` of Interfaces the rounds that its pointer makes,
-- `reap_loop` one round more than there are children to wait for, and a decimal number has at most
-- the digits of its type. There is no other fuel.
-- A 64-bit or 32-bit number keeps its wrap-around (`sub64`, `to_ssize`, `% 2 ^ 32`).
--
-- Not modelled: text that is only printed, signal handlers but for those of the heartbeat, of
-- SIGCHLD and of the alarms that end a wait of `dg_send_recv` and `recv_v4`, what is compiled only
-- with `IPV6`, `HAVE_KQUEUE` and the like, and the programs that only call the functions above one
-- after the other.
pub mod Address
pub mod Checksum
pub mod Client
pub mod Connect
pub mod Echo
pub mod Errors
pub mod Heartbeat
pub mod Icmpd
pub mod Interfaces
pub mod Multicast
pub mod Ntop
pub mod Packet
pub mod Passing
pub mod Ping
pub mod Prelude
pub mod RawUdp
pub mod Relay
pub mod Resolve
pub mod Rtt
pub mod Sdr
pub mod Server
pub mod Sntp
pub mod Stream
pub mod Sys
pub mod Time
pub mod Traceroute
pub mod Web
pub mod WebChild
pub mod Wrap
