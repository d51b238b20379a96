-- ===== src/Relay/Tests.antt =====
-- The relay at concrete kernels.
use network_program.Prelude.{
  ◌≡◌, refl, [], ◌∷◌, true, false, ◌||◌, arith, leb, if◌then◌else◌, Bool-cases, inl, inr,
}
use network_program.Sys.{got, wrote, Done}
use network_program.Relay.Buffer.{slice, pending}
use network_program.Relay.{
  State, start, Kernel, asks_stdin, asks_socket, asks_stdout, asks_peer, run,
}
use network_program.Relay.Copies.{
  IsPosix, Copies, RoundCopies, start-Copies, run-start-Copies, Copies-asks,
}

-- The input brings one byte if there is room, the socket is at its end, writes take everything.
abbrev busy : Kernel
busy = record {
  stdin_readable = true;
  socket_readable = false;
  stdout_writable = true;
  socket_writable = true;
  read_stdin = λ n. if leb 1 n then got (65 ∷ []) else got [];
  read_socket = λ n. got [];
  write_stdout = λ n. wrote n;
  write_socket = λ n. wrote n;
}

busy-IsPosix : IsPosix busy
busy-IsPosix = record {
  stdin_fits = λ n. elim (Bool-cases (leb 1 n)) [
    | inl some_room ↦ rw some_room (ground arith)
    | inr no_room ↦ rw no_room (omega arith)
  ];
  socket_fits = λ n. omega arith;
  stdout_fits = λ n. omega arith;
  peer_fits = λ n. omega arith;
}

run-start-Copies_example : Done RoundCopies (run (busy ∷ busy ∷ []) start)
run-start-Copies_example = run-start-Copies (busy ∷ busy ∷ []) (busy-IsPosix, (busy-IsPosix, tt))

Copies-asks_example :
    (asks_socket start || asks_stdout start ≡ true)
    × (start.stdineof ≡ false → asks_stdin start || asks_peer start ≡ true)
Copies-asks_example = Copies-asks start start-Copies

-- One byte waits for the standard output, the input has ended, and so has the socket.
abbrev ending_state : State
ending_state = record start {
  fr = record { mem = λ i. 66; inp = 1; out = 0 };
  stdineof = true;
  from_socket = 66 ∷ [];
  fins = 1;
}

abbrev hung_up : Kernel
hung_up = record busy { stdin_readable = false; socket_readable = true }

ending_state-Copies : Copies ending_state
unfolding pending slice
ending_state-Copies = record {
  to_ok = record { ordered = omega arith; inside = omega arith; rewound = λ e. refl };
  fr_ok = record {
    ordered = omega arith;
    inside = omega arith;
    rewound = λ e. absurd (omega arith);
  };
  up = refl;
  down = refl;
  fin = refl;
}
