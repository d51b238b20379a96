-- ===== src/Ntop.antt =====
-- sock_ntop.cpp and sock_ntop_host.cpp: the text of a socket address, as the two are built: `IPV6`
-- and `HAVE_SOCKADDR_DL_STRUCT` are not defined, `AF_UNIX` is. A text is its characters without the
-- 0 behind them. `inet_ntop` is a parameter.
pub mod Port
mod Tests
use network_program.Prelude.{
  ℕ, zero, suc, ◌+◌, ◌*◌, ◌/◌, ◌%◌, Bool, Option, none, some, List, [], ◌∷◌, ◌++◌, take, ltb, ◌==◌,
  if◌then◌else◌,
}
use network_program.Sys.{Outcome, done, exits}
use network_program.Address.{SockAddr, inet, unix, other_family}

-- A 16-bit number as a little-endian machine takes it from the network.
abbrev pub ntohs : ℕ → ℕ
ntohs n = n % 256 * 256 + n / 256 % 256

-- `%d` for a number that is not negative, of so many digits at most.
unfoldable pub decimal : ℕ → ℕ → List ℕ
decimal zero n = []
decimal (suc k) n =
    let front = decimal k (n / 10) in
    if ltb n 10 then (b'0' + n) ∷ [] else front ++ (b'0' + n % 10) ∷ []

-- A `int` has ten digits at most.
abbrev int_text : ℕ → List ℕ
int_text n = decimal 10 n

-- The bytes before the first 0.
abbrev pub c_string : List ℕ → List ℕ
c_string [] = []
c_string (b ∷ bs) = let rest = c_string bs in if b == 0 then [] else b ∷ rest

abbrev no_pathname : List ℕ
no_pathname =
    b'(' ∷ b'n' ∷ b'o' ∷ b' ' ∷ b'p' ∷ b'a' ∷ b't' ∷ b'h' ∷ b'n' ∷ b'a' ∷ b'm' ∷ b'e' ∷ b' ' ∷ b'b'
    ∷ b'o' ∷ b'u' ∷ b'n' ∷ b'd' ∷ b')' ∷ []

-- `snprintf` into the 128 bytes of `str`.
abbrev pub fitted : List ℕ → List ℕ
fitted text = take 127 text

abbrev path_text : List ℕ → List ℕ
path_text [] = no_pathname
path_text (b ∷ path) = if b == 0 then no_pathname else fitted (c_string (b ∷ path))

-- ": unknown AF_xxx: %d, len %d" behind the function's name.
abbrev unknown_text : List ℕ → ℕ → ℕ → List ℕ
unknown_text name family salen = fitted (
    name
    ++ b':'
      ∷ b' '
      ∷ b'u'
      ∷ b'n'
      ∷ b'k'
      ∷ b'n'
      ∷ b'o'
      ∷ b'w'
      ∷ b'n'
      ∷ b' '
      ∷ b'A'
      ∷ b'F'
      ∷ b'_'
      ∷ b'x'
      ∷ b'x'
      ∷ b'x'
      ∷ b':'
      ∷ b' '
      ∷ int_text family
    ++ b',' ∷ b' ' ∷ b'l' ∷ b'e' ∷ b'n' ∷ b' ' ∷ int_text salen)

abbrev ntop_name : List ℕ
ntop_name = b's' ∷ b'o' ∷ b'c' ∷ b'k' ∷ b'_' ∷ b'n' ∷ b't' ∷ b'o' ∷ b'p' ∷ []

-- `sock_ntop_host`.
unfoldable pub sock_ntop_host : (List ℕ → Option (List ℕ)) → SockAddr → ℕ → Option (List ℕ)
sock_ntop_host inet_ntop (inet port addr) salen = inet_ntop addr
sock_ntop_host inet_ntop (unix path) salen = some (path_text path)
sock_ntop_host inet_ntop (other_family n) salen =
    some (unknown_text (ntop_name ++ b'_' ∷ b'h' ∷ b'o' ∷ b's' ∷ b't' ∷ []) n salen)

-- `:%d` of the port, which `strcat` puts behind the host. `portstr` holds 7 characters.
unfoldable pub port_text : ℕ → List ℕ
unfolding decimal
port_text port = if port == 0 then [] else take 7 (b':' ∷ decimal 5 port)

unfoldable pub sock_ntop : (List ℕ → Option (List ℕ)) → SockAddr → ℕ → Option (List ℕ)
unfolding port_text
sock_ntop inet_ntop (inet port addr) salen = elim (inet_ntop addr) [
  | none ↦ none
  | some host ↦ some (host ++ port_text (ntohs port))
]
sock_ntop inet_ntop (unix path) salen = some (path_text path)
sock_ntop inet_ntop (other_family n) salen = some (unknown_text ntop_name n salen)

-- `Sock_ntop` and `Sock_ntop_host`.
unfoldable pub text_or_exit : Option (List ℕ) → Outcome (List ℕ)
text_or_exit none = exits
text_or_exit (some text) = done text
