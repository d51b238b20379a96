-- ===== src/Client/Tests.antt =====
-- Two lines against an echo server, and a session whose answer comes after the end of the input.
use network_program.Prelude.{ℕ, ◌≡◌, refl, List, [], ◌∷◌, true, false, inr, arith, replicate}
use network_program.Sys.{ReadResult, got, wrote, done}
use network_program.Stream.Supply.{end_of_file}
use network_program.Stream.Readline.{Reader}
use network_program.Stream.Readline.Buffer.{Holds}
use network_program.Echo.{Round}
use network_program.Echo.Back.{AllKind, str_echo-input}
use network_program.Client.{Line, Ready, str_cli, str_cli_select_shutdown}
use network_program.Client.Lines.{last, more, str_cli-str_echo}
use network_program.Client.Batch.{str_cli_select_shutdown-copies}

abbrev lines : List Line
lines =
    record { sendline = b'a' ∷ b'\n' ∷ []; writes = wrote 2 ∷ [] }
    ∷ record { sendline = b'\n' ∷ []; writes = wrote 1 ∷ [] }
    ∷ []

abbrev server : List Round
server =
    record { read = got (b'a' ∷ b'\n' ∷ b'\n' ∷ []); writes = wrote 3 ∷ [] }
    ∷ record { read = got []; writes = [] }
    ∷ []

abbrev reader : Reader
reader = record { cnt = 0; ptr = 0; buf = replicate 4096 0 }

abbrev arrivals : List ReadResult
arrivals = got (b'a' ∷ []) ∷ got (b'\n' ∷ b'\n' ∷ []) ∷ got [] ∷ []

abbrev text : List ℕ
text = b'a' ∷ b'\n' ∷ b'\n' ∷ []

server-AllKind : AllKind server
server-AllKind =
    ((omega arith, inr (omega arith, tt), omega arith), ((omega arith, tt, omega arith), tt))

reader-Holds : Holds reader arrivals text end_of_file
reader-Holds = record {
  size = refl;
  inside = omega arith;
  clean = (omega arith, (omega arith, tt));
  bytes = refl;
  stop = refl;
}

str_cli-str_echo_example : (text ≡ text) × (str_cli lines reader arrivals ≡ done (text, text))
str_cli-str_echo_example =
    str_cli-str_echo lines server reader arrivals text end_of_file
      (
        more refl refl last,
        omega arith,
        inr (omega arith, tt),
        omega arith,
        (last, omega arith, inr (omega arith, tt), omega arith, tt),
      )
      server-AllKind refl (str_echo-input server server-AllKind) reader-Holds

abbrev session : List Ready
session =
    record {
      sock = false;
      input = true;
      from_sock = got [];
      write = wrote 0;
      from_input = got (b'h' ∷ []);
      writes = wrote 1 ∷ [];
      shutdown_fails = false;
    }
    ∷ record {
      sock = false;
      input = true;
      from_sock = got [];
      write = wrote 0;
      from_input = got [];
      writes = [];
      shutdown_fails = false;
    }
    ∷ record {
      sock = true;
      input = false;
      from_sock = got (b'h' ∷ []);
      write = wrote 1;
      from_input = got [];
      writes = [];
      shutdown_fails = false;
    }
    ∷ record {
      sock = true;
      input = false;
      from_sock = got [];
      write = wrote 0;
      from_input = got [];
      writes = [];
      shutdown_fails = false;
    }
    ∷ []

str_cli_select_shutdown-copies_example :
    str_cli_select_shutdown session ≡ done (b'h' ∷ [], b'h' ∷ [])
str_cli_select_shutdown-copies_example =
    str_cli_select_shutdown-copies session
      (omega arith, inr (omega arith, tt), omega arith, (refl, (omega arith, refl, refl)))
