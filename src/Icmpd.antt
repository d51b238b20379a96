-- ===== src/Icmpd.antt =====
-- icmpd/main.cpp with icmpd/icmpd.h and icmpd/unpicmpd.h: a daemon that hands ICMP errors to the
-- processes whose UDP sockets they concern. As built, without IPV6.
-- `Accept`, `Write` and `Close` are taken to return. What is printed is left out.
pub mod Deliver
pub mod Register
pub mod Loop
pub mod Idle
mod Tests
use network_program.Prelude.{
  ℕ, zero, suc, ◌+◌, ◌-◌, ◌*◌, Bool, true, false, not, ◌&&◌, ◌||◌, Option, none, some, List, [],
  ◌∷◌, ◌++◌, length, drop, replicate, set, get_elem?, ltb, leb, ◌==◌, if◌then◌else◌,
}
use network_program.Prelude.Int.{ℤ, pos, negsuc, ltb_ℤ}
use network_program.Sys.{Outcome, done, exits, ◌>>=◌}
use network_program.Packet.{byte, word, ip_header_length}
use network_program.Address.{
  SockAddr, Family, af_inet, af_unix, af_other, sa_family, sock_get_port, sock_bind_wild,
}

-- `FD_SETSIZE`.
abbrev pub table_size : ℕ
table_size = 1024

-- `connfd` of -1 is `none`.
pub record Client : Type 0 where
  pub connfd : Option ℕ
  pub family : Family
  pub lport : ℤ

-- `count` is `maxi + 1`.
pub record Daemon : Type 0 where
  pub fd4 : ℕ
  pub listenfd : ℕ
  pub count : ℕ
  pub maxfd : ℕ
  pub client : List Client
  pub allset : ℕ → Bool

-- A global variable is zero.
abbrev pub zeroed : Client
zeroed = record { connfd = some 0; family = af_other 0; lport = pos 0 }

-- `for (auto element : client) element.connfd = -1;` changes copies.
unfoldable pub clear_copies : List Client → List Client
clear_copies cs = cs

unfoldable pub start : ℕ → ℕ → Daemon
unfolding clear_copies
start fd4 listenfd = record {
  fd4 = fd4;
  listenfd = listenfd;
  count = 0;
  maxfd = if ltb fd4 listenfd then listenfd else fd4;
  client = clear_copies (replicate table_size zeroed);
  allset = λ f. (listenfd == f) || (fd4 == f);
}

-- The search for a free entry, which gets the descriptor.
unfoldable pub take_client : List Client → ℕ → Option (ℕ × List Client)
take_client [] f = none
take_client (c ∷ cs) f =
    let rest = take_client cs f in
    elim c.connfd [
      | none ↦ some (0, record c { connfd = some f } ∷ cs)
      | some _ ↦ elim rest [ none ↦ none | some (i, t) ↦ some (suc i, c ∷ t) ]
    ]

-- The new state, and the descriptors that were closed. The caller counts `nready` down.
unfoldable pub readable_listen : ℕ → Daemon → Daemon × List ℕ
readable_listen f d = elim (take_client d.client f) [
  | none ↦ (d, f ∷ [])
  | some (i, t) ↦ (
    record d {
      client = t;
      allset = λ g. (f == g) || d.allset g;
      maxfd = if ltb d.maxfd f then f else d.maxfd;
      count = if leb d.count i then i + 1 else d.count;
    },
    [],
  )
]

-- What the calls for one client answer: the count and the descriptor of `Read_fd`, the name of
-- `getsockname`, and `bind` with the port that it chose.
pub record Handed : Type 0 where
  pub count : ℕ
  pub recvfd : Option ℕ
  pub name : Option SockAddr
  pub bind : SockAddr → ℤ
  pub bound : Option ℕ

-- What becomes of the client: its entry, the bytes written to it, the descriptors closed, and
-- whether the connection is given up.
pub record Answer : Type 0 where
  pub client : Client
  pub written : List ℕ
  pub closed : List ℕ
  pub dropped : Bool

abbrev pub closing : Option ℕ → List ℕ
closing none = []
closing (some f) = f ∷ []

-- From the label `clientdone` on, after what was written.
unfoldable pub client_done : Client → ℕ → Option ℕ → List ℕ → Answer
client_done c unixfd recvfd written = record {
  client = record c { connfd = none };
  written = written;
  closed = unixfd ∷ closing recvfd;
  dropped = true;
}

-- From the label `clienterr` on.
unfoldable pub client_err : Client → ℕ → Option ℕ → Answer
unfolding client_done
client_err c unixfd recvfd = client_done c unixfd recvfd (b'1' ∷ [])

unfoldable pub registered : Client → ℕ → ℕ → Family → ℤ → Answer
registered c unixfd recvfd family lport = record {
  client = record c { family = family; lport = lport };
  written = b'1' ∷ [];
  closed = recvfd ∷ [];
  dropped = false;
}

-- The port of the socket: its own, or one that is chosen now.
unfoldable pub local_port : Handed → SockAddr → ℤ
unfolding sock_get_port sock_bind_wild
local_port h ss =
    let port = sock_get_port ss in
    elim port [
      | pos zero ↦ sock_bind_wild h.bind h.bound (sa_family ss)
      | pos (suc n) ↦ pos (suc n)
      | negsuc n ↦ negsuc n
    ]

abbrev pub not_positive : ℤ → Bool
not_positive (pos zero) = true
not_positive (pos (suc n)) = false
not_positive (negsuc n) = true

-- Only a port that was 0 is checked after it was chosen.
unfoldable pub port_refused : SockAddr → ℤ → Bool
unfolding sock_get_port
port_refused ss port = elim (sock_get_port ss) [
  | pos zero ↦ not_positive port
  | pos (suc n) ↦ false
  | negsuc n ↦ false
]

-- `readable_conn` for a client with a connection, by what `getsockname` and `Read_fd` answer.
unfoldable pub named : Handed → ℕ → Client → ℕ → Option SockAddr → Answer
unfolding client_err registered local_port port_refused
named h unixfd c recvfd none = client_err c unixfd (some recvfd)
named h unixfd c recvfd (some ss) =
    let port = local_port h ss in
    if port_refused ss port
    then client_err (record c { family = sa_family ss; lport = port }) unixfd (some recvfd)
    else registered c unixfd recvfd (sa_family ss) port

unfoldable pub received : Handed → ℕ → Client → ℕ → Option ℕ → Answer
unfolding client_done client_err named
received h unixfd c zero recvfd = client_done c unixfd none []
received h unixfd c (suc n) none = client_err c unixfd none
received h unixfd c (suc n) (some recvfd) = named h unixfd c recvfd h.name

unfoldable pub readable_conn : Handed → ℕ → Client → Answer
unfolding received
readable_conn h unixfd c = received h unixfd c h.count h.recvfd

-- `icmpd_errno`.
pub data DestError : Type 0 where
  ehostunreach econnrefused emsgsize : DestError

pub record IcmpdErr : Type 0 where
  pub errno : DestError
  pub type : ℕ
  pub code : ℕ
  pub dest_addr : List ℕ
  pub dest_port : ℕ

-- ICMP_UNREACH is 3, its codes for a port and for fragmentation are 3 and 4.
unfoldable pub dest_error : ℕ → ℕ → DestError
dest_error type code =
    if type == 3
    then (if code == 3 then econnrefused else (if code == 4 then emsgsize else ehostunreach))
    else ehostunreach

abbrev pub is_inet : Family → Bool
is_inet af_inet = true
is_inet _ = false

abbrev pub same_port : ℤ → ℕ → Bool
same_port (pos p) sport = p == sport
same_port (negsuc p) sport = false

-- `for (i = 0; i < maxi; ++i)`, over the entries that are left.
unfoldable pub notify : ℕ → ℕ → IcmpdErr → List Client → List (ℕ × IcmpdErr)
notify zero sport err cs = []
notify (suc k) sport err [] = []
notify (suc k) sport err (c ∷ cs) =
    let rest = notify k sport err cs in
    elim c.connfd [
      | none ↦ rest
      | some f ↦ if is_inet c.family && same_port c.lport sport then (f, err) ∷ rest else rest
    ]

-- The three types whose errors are handed on: ICMP_UNREACH, ICMP_TIMXCEED, ICMP_SOURCEQUENCH.
abbrev pub is_error : ℕ → Bool
is_error type = (type == 3) || (type == 11) || (type == 4)

abbrev pub ip_dst : List ℕ → Outcome (List ℕ)
ip_dst ip = byte ip 16 >>= λ a.
    byte ip 17 >>= λ b. byte ip 18 >>= λ c. byte ip 19 >>= λ d. done (a ∷ b ∷ c ∷ d ∷ [])

-- `readable_v4`, with what is written to which connection. IPPROTO_UDP is 17.
unfoldable pub readable_v4 : List ℕ → Daemon → Outcome (List (ℕ × IcmpdErr))
unfolding notify dest_error
readable_v4 buf d = ip_header_length buf >>= λ hlen1.
    let icmp = drop hlen1 buf in
    if ltb (length buf) (hlen1 + 8)
    then exits
    else (byte icmp 0 >>= λ type. byte icmp 1 >>= λ code.
        let hip = drop 8 icmp in
        if is_error type
        then (if ltb (length buf) (hlen1 + 36)
            then exits
            else (ip_header_length hip >>= λ hlen2. byte hip 9 >>= λ proto.
                let udp = drop hlen2 hip in
                if proto == 17
                then (word udp 0 >>= λ sport. word udp 2 >>= λ dport. ip_dst hip >>= λ dst. done (
                    notify (d.count - 1) sport
                      (record {
                        errno = dest_error type code;
                        type = type;
                        code = code;
                        dest_addr = dst;
                        dest_port = dport;
                      })
                      d.client))
                else done []))
        else done [])
