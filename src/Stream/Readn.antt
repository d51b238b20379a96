-- ===== src/Stream/Readn.antt =====
-- readn.cpp.
pub mod Spec
use network_program.Prelude.{
  ℕ, ◌+◌, ◌-◌, ◌^◌, ◌≤◌, ◌<◌, ◌≡◌, refl, sym, ◌⊎◌, inl, inr, List, [], ◌∷◌, ◌++◌, append_assoc,
  append-nil, length, length-append, arith, ◌==◌, if◌then◌else◌,
}
use network_program.Prelude.Int.{ℤ, pos, negsuc}
use network_program.Sys.{
  ReadResult, got, failed, eintr, Outcome, done, exits, waits, fault, ◌>>=◌, sub64, to_ssize,
}

-- What the caller has afterwards: the value returned, the bytes at `vptr`, the calls not yet made.
pub record ReadnEnd : Type 0 where
  pub value : ℤ
  pub stored : List ℕ
  pub rest : List ReadResult

-- The loop over `nleft` and `ptr`; `stored` is what stands between `vptr` and `ptr`.
pub readn_loop : ℕ → ℕ → List ℕ → List ReadResult → Outcome ReadnEnd
readn_loop n nleft stored [] =
    if nleft == 0
    then done (record { value = to_ssize (sub64 n nleft); stored = stored; rest = [] })
    else waits
readn_loop n nleft stored (r ∷ rs) =
    let next : Outcome ReadnEnd = elim r [
      | got [] ↦ done (record { value = to_ssize (sub64 n nleft); stored = stored; rest = rs })
      | got (b ∷ bs) ↦ readn_loop n (sub64 nleft (length (b ∷ bs))) (stored ++ b ∷ bs) rs
      | failed eintr ↦ readn_loop n nleft stored rs
      | failed _ ↦ done (record { value = negsuc 0; stored = stored; rest = rs })
    ] in
    if nleft == 0
    then done (record { value = to_ssize (sub64 n nleft); stored = stored; rest = r ∷ rs })
    else next

unfoldable pub readn : ℕ → List ReadResult → Outcome ReadnEnd
unfolding readn_loop
readn n rs = readn_loop n n [] rs

-- `Readn`: an error ends the process.
unfoldable pub readn_or_exit : ℕ → List ReadResult → Outcome ReadnEnd
readn_or_exit n rs = do e ← readn n rs; elim e.value [ pos _ ↦ done e | negsuc _ ↦ exits ]
