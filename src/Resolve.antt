-- ===== src/Resolve.antt =====
-- tcp_connect.cpp, tcp_listen.cpp, udp_client.cpp and udp_server.cpp: the first address of a host
-- and service that a socket can be made for.
-- `getaddrinfo` is a parameter: it fails, or it gives a list of candidates, each with what the
-- kernel would answer for it. The descriptors that the code closes are kept beside its result.
pub mod First
mod Tests
use network_program.Prelude.{ℕ, Bool, Option, none, some, List, [], ◌∷◌, if◌then◌else◌}
use network_program.Sys.{Outcome, done, exits, fault, ◌>>=◌}

-- One entry of the list of `getaddrinfo`: `ai_addrlen`, the result of `socket` (`none` is -1), and
-- whether each other call on the new socket succeeds.
pub record Candidate : Type 0 where
  pub addrlen : ℕ
  pub socket : Option ℕ
  pub setsockopt : Bool
  pub connect : Bool
  pub bind : Bool
  pub close : Bool

pub record Found : Type 0 where
  pub fd : ℕ
  pub addrlen : ℕ
  pub closed : List ℕ

abbrev pub found_at : Candidate → ℕ → Outcome Found
found_at c f = done (record { fd = f; addrlen = c.addrlen; closed = [] })

-- `Close(sockfd)`, and on to the next entry.
unfoldable pub close_and : Candidate → ℕ → Outcome Found → Outcome Found
close_and c f rest =
    if c.close then (rest >>= λ r. done (record r { closed = f ∷ r.closed })) else exits

-- The `do` loops, and the `err_sys` that ends the process where the list runs out.
unfoldable pub tcp_connect_loop : List Candidate → Outcome Found
unfolding close_and
tcp_connect_loop [] = exits
tcp_connect_loop (c ∷ cs) =
    let rest = tcp_connect_loop cs in
    elim c.socket [ none ↦ rest | some f ↦ if c.connect then found_at c f else close_and c f rest ]

unfoldable pub tcp_listen_loop : List Candidate → Outcome Found
unfolding close_and
tcp_listen_loop [] = exits
tcp_listen_loop (c ∷ cs) =
    let rest = tcp_listen_loop cs in
    elim c.socket [
      | none ↦ rest
      | some f ↦
          if c.setsockopt then (if c.bind then found_at c f else close_and c f rest) else exits
    ]

unfoldable pub udp_client_loop : List Candidate → Outcome Found
udp_client_loop [] = exits
udp_client_loop (c ∷ cs) =
    let rest = udp_client_loop cs in elim c.socket [ none ↦ rest | some f ↦ found_at c f ]

unfoldable pub udp_server_loop : List Candidate → Outcome Found
unfolding close_and
udp_server_loop [] = exits
udp_server_loop (c ∷ cs) =
    let rest = udp_server_loop cs in
    elim c.socket [ none ↦ rest | some f ↦ if c.bind then found_at c f else close_and c f rest ]

-- `err_quit` where `getaddrinfo` fails. The loops read `res` before they test it, so an empty list
-- would be read through a null pointer.
unfoldable pub resolved : (List Candidate → Outcome Found) → Option (List Candidate) → Outcome Found
resolved loop none = exits
resolved loop (some []) = fault
resolved loop (some (c ∷ cs)) = loop (c ∷ cs)

unfoldable pub tcp_connect : Option (List Candidate) → Outcome Found
tcp_connect = resolved tcp_connect_loop

-- `Listen` ends the process where `listen` fails.
unfoldable pub tcp_listen : Bool → Option (List Candidate) → Outcome Found
tcp_listen listens found = resolved tcp_listen_loop found >>= λ r. if listens then done r else exits

-- `Malloc` ends the process where it fails.
unfoldable pub udp_client : Bool → Option (List Candidate) → Outcome Found
udp_client allocates found =
    resolved udp_client_loop found >>= λ r. if allocates then done r else exits

unfoldable pub udp_server : Option (List Candidate) → Outcome Found
udp_server = resolved udp_server_loop
