-- ===== src/Server/SelectEcho/Tests.antt =====
-- The select server with one client.
use network_program.Prelude.{◌≡◌, none, replicate, false, ◌||◌, refl, [], ◌==◌}
use network_program.Sys.{got, done}
use network_program.Server.SelectEcho.{fd_set, Server, init, Event, table_size}

abbrev arrival : Event
arrival = record { nready = 1; rset = λ f. f == 3; connfd = 4; reads = λ f. got [] }

abbrev started : Server
started = record {
  listenfd = 3;
  maxfd = 3;
  count = 0;
  client = replicate table_size none;
  allset = λ f. (3 == f) || false;
}

started-init : init 3 ≡ done started
unfolding init fd_set
started-init = refl
