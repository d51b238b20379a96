-- ===== src/Interfaces/Tests.antt =====
-- One entry: the loopback interface, with 127.0.0.1.
use network_program.Prelude.{
  ℕ, ◌≡◌, refl, false, none, some, List, [], ◌∷◌, ◌++◌, length, replicate,
}
use network_program.Sys.{done}
use network_program.Interfaces.{
  IfiInfo, stored, Device, memory, read_conf, rounds, cut_colon, same_name, walk, af_inet_number,
}

abbrev lo : List ℕ
lo = b'l' ∷ b'o' ∷ replicate 14 0

abbrev addr : List ℕ
addr = 2 ∷ 0 ∷ 0 ∷ 0 ∷ 127 ∷ 0 ∷ 0 ∷ 1 ∷ replicate 8 0

abbrev conf : List ℕ
conf = lo ++ addr ++ replicate 8 0

abbrev loopback : List ℕ → Device
loopback name = record { flags = some 73; broadcast = none; destination = none }

abbrev lo_info : IfiInfo
lo_info = record {
  ifi_name = lo;
  ifi_flags = 73;
  ifi_alias = false;
  ifi_addr = some addr;
  ifi_brdaddr = none;
  ifi_dstaddr = none;
}

first_round : walk 1 loopback af_inet_number false (0 ∷ []) conf ≡ done (lo_info ∷ [])
unfolding walk cut_colon same_name
first_round = refl

-- The second round reads the family of an entry behind what was stored: here 0.
behind_the_end :
    walk (rounds (length conf)) loopback af_inet_number false (0 ∷ []) (conf ++ memory 16 (λ i. 0))
    ≡ done (lo_info ∷ [])
unfolding walk cut_colon same_name memory
behind_the_end = refl

lengths :
    read_conf (stored conf (λ i. 7) ∷ stored conf (λ i. 0) ∷ []) 0 30
    ≡ done (40, conf ++ memory 390 (λ i. 0))
unfolding read_conf memory
lengths = refl
