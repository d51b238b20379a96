-- ===== src/Stream/Writen.antt =====
-- writen.cpp.
pub mod Spec
use network_program.Prelude.{
  ℕ, suc, zero, List, [], ◌∷◌, ◌++◌, length, take, drop, ◌==◌, if◌then◌else◌,
}
use network_program.Sys.{
  WriteResult, wrote, refused, eintr, Outcome, done, exits, waits, fault, ◌>>=◌, sub64, size_max,
}

-- What the caller has afterwards: the `size_t` returned, the bytes that went out, the calls not yet
-- made.
pub record WritenEnd : Type 0 where
  pub value : ℕ
  pub sent : List ℕ
  pub rest : List WriteResult

-- The loop over `nleft` and `ptr`, the bytes from `ptr` on.
unfoldable pub writen_loop : ℕ → ℕ → List ℕ → List ℕ → List WriteResult → Outcome WritenEnd
writen_loop n nleft ptr sent [] =
    if nleft == 0 then done (record { value = n; sent = sent; rest = [] }) else waits
writen_loop n nleft ptr sent (r ∷ rs) =
    let next : Outcome WritenEnd = elim r [
      | wrote zero ↦ done (record { value = size_max; sent = sent; rest = rs })
      | wrote (suc k) ↦
          writen_loop n (sub64 nleft (suc k)) (drop (suc k) ptr) (sent ++ take (suc k) ptr) rs
      | refused eintr ↦ writen_loop n nleft ptr sent rs
      | refused _ ↦ done (record { value = size_max; sent = sent; rest = rs })
    ] in
    if nleft == 0 then done (record { value = n; sent = sent; rest = r ∷ rs }) else next

-- `writen(fd, bs, n)` with `n` the number of bytes at `bs`.
unfoldable pub writen : List ℕ → List WriteResult → Outcome WritenEnd
unfolding writen_loop
writen bs rs = writen_loop (length bs) (length bs) bs [] rs

-- `Writen`: any other count than the one asked for ends the process.
unfoldable pub writen_or_exit : List ℕ → List WriteResult → Outcome WritenEnd
writen_or_exit bs rs = do e ← writen bs rs; if e.value == length bs then done e else exits
