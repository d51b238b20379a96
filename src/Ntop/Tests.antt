-- ===== src/Ntop/Tests.antt =====
-- The text of 10.0.0.1 with port 443, and of a socket without a name.
use network_program.Prelude.{ℕ, ◌≡◌, refl, Option, some, List, [], ◌∷◌, ◌++◌}
use network_program.Address.{inet}
use network_program.Ntop.{decimal, port_text, sock_ntop, sock_ntop_host}
use network_program.Ntop.Port.{host_of, port_of, sock_ntop-parts}

abbrev host : List ℕ
host = b'1' ∷ b'0' ∷ b'.' ∷ b'0' ∷ b'.' ∷ b'0' ∷ b'.' ∷ b'1' ∷ []

-- A kernel that knows one host.
abbrev inet_ntop : List ℕ → Option (List ℕ)
inet_ntop addr = some host

with_port :
    sock_ntop inet_ntop (inet 0xbb01 (10 ∷ 0 ∷ 0 ∷ 1 ∷ [])) 16
    ≡ some (host ++ b':' ∷ b'4' ∷ b'4' ∷ b'3' ∷ [])
unfolding sock_ntop port_text decimal
with_port = refl

sock_ntop-parts_example :
    (text : List ℕ) × (sock_ntop inet_ntop (inet 0xbb01 (10 ∷ 0 ∷ 0 ∷ 1 ∷ [])) 16 ≡ some text)
    × (sock_ntop_host inet_ntop (inet 0xbb01 (10 ∷ 0 ∷ 0 ∷ 1 ∷ [])) 16 ≡ some (host_of text))
    × (port_of text ≡ 443)
sock_ntop-parts_example = sock_ntop-parts inet_ntop 0xbb01 16 (10 ∷ 0 ∷ 0 ∷ 1 ∷ []) host refl (
  (λ e. cc e),
  (
    (λ e. cc e),
    ((λ e. cc e), ((λ e. cc e), ((λ e. cc e), ((λ e. cc e), ((λ e. cc e), ((λ e. cc e), tt)))))),
  ),
)
