-- ===== src/Wrap/Transfer.antt =====
-- wrapsock.cpp and wrapunix.cpp: the wrappers that end the process unless all bytes are taken.
use network_program.Prelude.{ℕ, ◌+◌, ◌%◌, Bool, false, not, List, [], ◌∷◌, ◌==◌}
use network_program.Prelude.Int.{ℤ, pos, negsuc}
use network_program.Sys.{Void, Outcome, WriteResult, wrote, refused, size_mod, size_max, to_ssize}
use network_program.Wrap.{exits_if}

-- The result as a `ssize_t`, where `refused` is -1.
abbrev pub signed : WriteResult → ℤ
signed (wrote n) = pos n
signed (refused e) = negsuc 0

abbrev pub same_ℤ : ℤ → ℤ → Bool
same_ℤ (pos m) (pos n) = m == n
same_ℤ (negsuc m) (negsuc n) = m == n
same_ℤ _ _ = false

-- The counts are compared as `ssize_t`.
unfoldable pub send_or_exit : ℕ → WriteResult → Outcome Void
send_or_exit nbytes r = exits_if (not (same_ℤ (signed r) (to_ssize nbytes))) tt

unfoldable pub sendto_or_exit : ℕ → WriteResult → Outcome Void
sendto_or_exit nbytes r = exits_if (not (same_ℤ (signed r) (to_ssize nbytes))) tt

-- The sum of `iov_len` over the vector, with 64 bits.
unfoldable pub iov_total : List ℕ → ℕ
iov_total [] = 0
iov_total (n ∷ ns) = (n + iov_total ns) % size_mod

unfoldable pub sendmsg_or_exit : List ℕ → WriteResult → Outcome Void
sendmsg_or_exit lens r = exits_if (not (same_ℤ (signed r) (to_ssize (iov_total lens)))) tt

-- `write(fd, ptr, nbytes) != nbytes` compares with 64 bits and no sign.
abbrev pub unsigned : WriteResult → ℕ
unsigned (wrote n) = n % size_mod
unsigned (refused e) = size_max

unfoldable pub write_or_exit : ℕ → WriteResult → Outcome Void
write_or_exit nbytes r = exits_if (not (unsigned r == nbytes)) tt
