-- ===== src/Checksum/Tests.antt =====
-- The checksum at concrete packets.
use network_program.Prelude.{◌≡◌, refl, [], ◌∷◌}
use network_program.Checksum.{in_cksum}

echo_header : in_cksum (8 ∷ 0 ∷ 0 ∷ 0 ∷ 1 ∷ 2 ∷ 3 ∷ 4 ∷ []) ≡ 0xf9f3
unfolding in_cksum
echo_header = refl

odd_length : in_cksum (0xff ∷ 0xff ∷ 1 ∷ []) ≡ 0xfffe
unfolding in_cksum
odd_length = refl
