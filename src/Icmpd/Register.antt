-- ===== src/Icmpd/Register.antt =====
-- How clients come and go.
use network_program.Prelude.{
  ℕ, zero, suc, ◌-◌, ◌≤◌, ◌≡◌, ◌≢◌, refl, ◌∙◌, true, false, Bool-cases, inl, inr, Option, none,
  some, List, [], ◌∷◌, ◌++◌, length, replicate, arith, if◌then◌else◌,
}
use network_program.Prelude.Int.{ℤ, pos, negsuc}
use network_program.Sys.{done}
use network_program.Address.{SockAddr, sock_get_port}
use network_program.Packet.{IsHeader}
use network_program.Icmpd.{
  Client, Daemon, Handed, Answer, zeroed, table_size, start, clear_copies, take_client,
  readable_listen, closing, client_done, client_err, registered, local_port, port_refused,
  not_positive, named, received, readable_conn, readable_v4, is_error,
}
use network_program.Icmpd.Deliver.{IsUdp, icmp_error, readable_v4-watchers}

-- Connections that arrive one after the other, with all descriptors that were closed.
abbrev pub arrive : List ℕ → Daemon → Daemon × List ℕ
arrive [] d = (d, [])
arrive (f ∷ fs) d = let p = readable_listen f d in let q = arrive fs p.0 in (q.0, p.1 ++ q.1)

take_client-replicate : (n f : ℕ) → take_client (replicate n zeroed) f ≡ none
unfolding take_client
take_client-replicate zero f = refl
take_client-replicate (suc n) f = rw (take_client-replicate n f) refl

pub listen_refuses :
    (f : ℕ) (d : Daemon) → take_client d.client f ≡ none → readable_listen f d ≡ (d, f ∷ [])
unfolding readable_listen
listen_refuses f d e = rw (e, readable_listen) refl

pub full : (f fd4 listenfd : ℕ) → take_client (start fd4 listenfd).client f ≡ none
unfolding start clear_copies
full f fd4 listenfd = take_client-replicate table_size f

-- The loop of `main` leaves every entry of the table in use, so the daemon closes each connection
-- that arrives and never has a client.
pub start_refuses :
    (fs : List ℕ) (fd4 listenfd : ℕ) → arrive fs (start fd4 listenfd) ≡ (start fd4 listenfd, fs)
start_refuses [] fd4 listenfd = refl
start_refuses (f ∷ fs) fd4 listenfd =
    rw (listen_refuses f (start fd4 listenfd) (full f fd4 listenfd), start_refuses fs fd4 listenfd)
      refl

-- While the first client is the only one, `maxi` is 0, and no ICMP error is written to it, whatever
-- port it has.
pub first_client_missed :
    (front six h rest : List ℕ) (type code a b c e s0 s1 d0 d1 : ℕ) (d : Daemon)
    → d.count ≡ 1
    → IsHeader front
    → ◌≡◌ {A = ℕ} (length six) 6
    → IsUdp h a b c e
    → 4 ≤ length rest
    → is_error type ≡ true
    → readable_v4 (front ++ icmp_error type code six h (s0 ∷ s1 ∷ d0 ∷ d1 ∷ rest)) d ≡ done []
first_client_missed front six h rest type code a b c e s0 s1 d0 d1 d one v size u long err =
    let none_asked : d.count - 1 ≡ 0 = omega arith in
    readable_v4-watchers front six h rest type code a b c e s0 s1 d0 d1 d v size u long err
    ∙ (rw none_asked refl)

-- The descriptor that the client handed over.
abbrev pub handed : ℕ → Option ℕ → List ℕ
handed zero o = []
handed (suc n) o = closing o

abbrev pub reply : ℕ → List ℕ
reply zero = []
reply (suc n) = b'1' ∷ []

-- What holds of every answer to a client, by the count and the descriptor of `Read_fd`.
pub record IsAnswered (n : ℕ) (o : Option ℕ) (unixfd : ℕ) (c : Client) (r : Answer) : Type 0 where
  pub closed : r.closed ≡ (if r.dropped then unixfd ∷ handed n o else handed n o)
  pub entry : r.client.connfd ≡ (if r.dropped then none else c.connfd)
  pub port : r.dropped ≡ false → r.client.lport ≢ pos 0
  pub told : r.written ≡ reply n

abbrev chosen_port : ℤ → ℤ → ℤ
chosen_port z chosen = elim z [
  | pos zero ↦ chosen
  | pos (suc n) ↦ pos (suc n)
  | negsuc n ↦ negsuc n
]

port_kept :
    (z chosen port : ℤ)
    → chosen_port z chosen ≡ port
    → (elim z [ pos zero ↦ not_positive port | pos (suc n) ↦ false | negsuc n ↦ false ]) ≡ false
    → port ≢ pos 0
port_kept (pos zero) chosen (pos zero) e h k = cc h
port_kept (pos zero) chosen (pos (suc n)) e h k = ground arith
port_kept (pos zero) chosen (negsuc n) e h k = ground arith
port_kept (pos (suc m)) chosen port e h k = ground arith
port_kept (negsuc m) chosen port e h k = ground arith

named-IsAnswered :
    (h : Handed) (unixfd : ℕ) (c : Client) (n recvfd : ℕ) (s : Option SockAddr)
    → IsAnswered (suc n) (some recvfd) unixfd c (named h unixfd c recvfd s)
unfolding named client_err client_done registered local_port port_refused
named-IsAnswered h unixfd c n recvfd none = record {
  closed = refl;
  entry = refl;
  port = λ e. cc e;
  told = refl;
}
named-IsAnswered h unixfd c n recvfd (some ss) =
    elim (Bool-cases (port_refused ss (local_port h ss))) [
      | inl refused ↦
          rw refused (record { closed = refl; entry = refl; port = λ e. cc e; told = refl })
      | inr fine ↦ rw fine (record {
        closed = refl;
        entry = refl;
        port = λ e. port_kept (sock_get_port ss) _ _ refl fine;
        told = refl;
      })
    ]

received-IsAnswered :
    (h : Handed) (unixfd : ℕ) (c : Client) (n : ℕ) (o : Option ℕ)
    → IsAnswered n o unixfd c (received h unixfd c n o)
unfolding received client_err client_done
received-IsAnswered h unixfd c zero o = record {
  closed = refl;
  entry = refl;
  port = λ e. cc e;
  told = refl;
}
received-IsAnswered h unixfd c (suc n) none = record {
  closed = refl;
  entry = refl;
  port = λ e. cc e;
  told = refl;
}
received-IsAnswered h unixfd c (suc n) (some recvfd) = named-IsAnswered h unixfd c n recvfd h.name

-- Whatever a client hands over: its descriptor is closed, its connection is closed exactly where its
-- entry becomes free, and the `lport` of an entry that stays is not 0. What is written is the same
-- after an error as after a registration.
pub readable_conn-IsAnswered :
    (h : Handed) (unixfd : ℕ) (c : Client)
    → IsAnswered h.count h.recvfd unixfd c (readable_conn h unixfd c)
unfolding readable_conn
readable_conn-IsAnswered h unixfd c = received-IsAnswered h unixfd c h.count h.recvfd
