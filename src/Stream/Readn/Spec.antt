-- ===== src/Stream/Readn/Spec.antt =====
-- readn.cpp against the byte stream: `readn` delivers a prefix of it.
use network_program.Prelude.{
  ℕ, ◌+◌, ◌-◌, ◌^◌, ◌≤◌, ◌<◌, ◌≡◌, inl, inr, List, [], ◌∷◌, ◌++◌, append_assoc, zero, suc,
  append-nil, length, length-append, take, take-append_ge, arith, leb, if◌then◌else◌, ◌∙◌,
}
use network_program.Prelude.Int.{ℤ, pos, negsuc}
use network_program.Sys.{
  ReadResult, got, failed, eintr, Outcome, done, waits, ◌>>=◌, sub64, to_ssize, sub64_le,
}
use network_program.Stream.Supply.{
  supply, ending, Ending, end_of_file, read_error, open_end, Within,
}
use network_program.Stream.Readn.{ReadnEnd, readn_loop, readn}

-- The value returned and the bytes stored.
abbrev pub seen : Outcome ReadnEnd → Outcome (ℤ × List ℕ)
seen o = o >>= λ e. done (e.value, e.stored)

abbrev short : Ending → ℕ → List ℕ → Outcome (ℤ × List ℕ)
short end_of_file k bs = done (pos k, bs)
short read_error k bs = done (negsuc 0, bs)
short open_end k bs = waits

-- What `readn` promises: `n` bytes if they come, else all up to the end of file.
abbrev pub promised : ℕ → List ReadResult → Outcome (ℤ × List ℕ)
promised n rs =
    if leb n (length (supply rs))
    then done (pos n, take n (supply rs))
    else short (ending rs) (length (supply rs)) (supply rs)

-- The same from inside the loop.
abbrev promised_from : ℕ → ℕ → List ℕ → List ReadResult → Outcome (ℤ × List ℕ)
promised_from n nleft out rs =
    if leb nleft (length (supply rs))
    then done (pos n, out ++ take nleft (supply rs))
    else short (ending rs) ((n - nleft) + length (supply rs)) (out ++ supply rs)

promised_from_zero :
    (n : ℕ) (out : List ℕ) (rs : List ReadResult) → promised_from n 0 out rs ≡ done (pos n, out)
promised_from_zero n out rs = ground (arith, append-nil out)

returned : (n nleft : ℕ) → nleft ≤ n → n < 2 ^ 63 → to_ssize (sub64 n nleft) ≡ pos (n - nleft)
returned n nleft h k = ground arith

promised_from_got :
    (n nleft : ℕ) (out : List ℕ) (b : ℕ) (bs : List ℕ) (rs : List ReadResult)
    → nleft ≤ n
    → length (b ∷ bs) ≤ nleft
    → promised_from n nleft out (got (b ∷ bs) ∷ rs)
      ≡ promised_from n (nleft - length (b ∷ bs)) (out ++ b ∷ bs) rs
promised_from_got n nleft out b bs rs h k = ground (
  arith,
  length-append (b ∷ bs) (supply rs),
  append_assoc out (b ∷ bs) (supply rs),
  append_assoc out (b ∷ bs) (take (nleft - length (b ∷ bs)) (supply rs)),
  take-append_ge (b ∷ bs) (supply rs) nleft k,
)

module _ (n : ℕ) (small : n < 2 ^ 63) where
  readn_loop_lem :
      (nleft : ℕ) (out : List ℕ) (rs : List ReadResult)
      → nleft ≤ n
      → Within nleft rs
      → seen (readn_loop n nleft out rs) ≡ promised_from n nleft out rs
  unfolding readn_loop
  readn_loop_lem nleft out [] h w = ground (arith, returned n nleft h small, append-nil out)
  readn_loop_lem nleft out (got [] ∷ rs) h w =
      ground (arith, returned n nleft h small, append-nil out)
  readn_loop_lem zero out (got (b ∷ bs) ∷ rs) h w =
      ground (arith, returned n 0 h small, append-nil out)
  readn_loop_lem (suc k) out (got (b ∷ bs) ∷ rs) h (inl e) = cc e
  readn_loop_lem (suc k) out (got (b ∷ bs) ∷ rs) h (inr (fits, w)) = ground (
    arith,
    sub64_le (suc k) (length (b ∷ bs)) fits (omega arith),
    promised_from_got n (suc k) out b bs rs h fits,
    readn_loop_lem (suc k - length (b ∷ bs)) (out ++ b ∷ bs) rs (omega arith) w,
  )
  readn_loop_lem nleft out (failed eintr ∷ rs) h w = ground (
    arith,
    returned n nleft h small,
    promised_from_zero n out rs,
    readn_loop_lem nleft out rs h w,
  )
  readn_loop_lem nleft out (failed _ ∷ rs) h w =
      ground (arith, returned n nleft h small, append-nil out)

-- For every count below 2 ^ 63 and all results of `read` that bring no more than was asked for,
-- `readn` returns `n` with the first `n` bytes of the stream if that many come, the number of all
-- bytes with the bytes themselves if the end of file comes first, and -1 with the bytes before it if
-- an error other than EINTR comes first; it still waits only if the results end before all three.
pub readn-promised :
    (n : ℕ) (rs : List ReadResult) → n < 2 ^ 63 → Within n rs → seen (readn n rs) ≡ promised n rs
unfolding readn
readn-promised n rs small w = readn_loop_lem n small n [] rs (omega arith) w ∙ ground arith
