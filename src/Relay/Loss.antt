-- ===== src/Relay/Loss.antt =====
-- What the end of file on the socket does to bytes that still wait for the standard output.
use network_program.Prelude.{
  ◌-◌, ◌<◌, ◌≡◌, ◌≢◌, refl, ap, [], length, length-append, arith, Bool, true, false, ◌&&◌,
}
use network_program.Sys.{got, done, max_line}
use network_program.Relay.Buffer.{waiting, pending, length-pending}
use network_program.Relay.{
  State, Kernel, asks_socket, asks_stdin, returned, closed, on_socket, round,
}
use network_program.Relay.Copies.{Copies}

no_input : (s : State) (b : Bool) → s.stdineof ≡ b → b ≡ true → asks_stdin s ≡ false
unfolding asks_stdin
no_input s b e ended = ground arith

hears_end : (s : State) (b : Bool) → s.stdineof ≡ b → b ≡ true → on_socket s (got []) ≡ done closed
unfolding on_socket
hears_end s b e ended = ground arith

-- Once the input has ended, a round that finds the end of file on the socket returns at once, before
-- it writes: whatever the `fr` buffer still holds is lost, so that the standard output misses bytes
-- that were read from the socket.
pub returned_early :
    (k : Kernel) (s : State)
    → Copies s
    → s.stdineof ≡ true
    → asks_socket s && k.socket_readable ≡ true
    → k.read_socket (max_line - s.fr.inp) ≡ got []
    → 0 < waiting s.fr
    → (round k s ≡ done (returned s)) × (s.to_stdout ≢ s.from_socket)
unfolding round
returned_early k s v ended ready eof held = (
  rw (no_input s s.stdineof refl ended, ready, eof, hears_end s s.stdineof refl ended) refl,
  λ same. absurd (
      omega (
        arith,
        ap length v.down,
        ap length same,
        length-append s.to_stdout (pending s.fr),
        length-pending s.fr,
      )),
)
