-- ===== src/Checksum.antt =====
-- in_cksum.cpp: the Internet checksum, on a little-endian machine.
pub mod Verify
mod Tests
use network_program.Prelude.{ℕ, ◌+◌, ◌-◌, ◌*◌, ◌/◌, ◌%◌, ◌^◌, List, [], ◌∷◌}

-- The loop: `sum` is a `uint32_t`, a word is two bytes in the order of the machine. An odd last
-- byte is the low byte of `answer`, which starts as 0.
pub add_words : ℕ → List ℕ → ℕ
add_words sum [] = sum
add_words sum (lo ∷ []) = (sum + lo) % 2 ^ 32
add_words sum (lo ∷ hi ∷ bs) = add_words ((sum + (lo + 256 * hi)) % 2 ^ 32) bs

-- `sum = (sum >> 16) + (sum & 0xffff); sum += (sum >> 16); answer = ~sum;` into a `uint16_t`.
unfoldable pub finish : ℕ → ℕ
finish sum =
    let folded = (sum / 2 ^ 16 + sum % 2 ^ 16) % 2 ^ 32 in
    let twice = (folded + folded / 2 ^ 16) % 2 ^ 32 in (2 ^ 32 - 1 - twice) % 2 ^ 16

-- `in_cksum(addr, len)` with the `len` bytes at `addr`.
unfoldable pub in_cksum : List ℕ → ℕ
unfolding add_words finish
in_cksum bs = finish (add_words 0 bs)
