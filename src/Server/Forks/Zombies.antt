-- ===== src/Server/Forks/Zombies.antt =====
-- What the two handlers of SIGCHLD leave of children that have ended.
use network_program.Prelude.{ℕ, zero, suc, ◌+◌, ◌≡◌, refl, false, arith}
use network_program.Sys.{done}
use network_program.Server.Forks.{
  Children, sig_chld_waitpid, sig_chld_wait, forks, ends, handles, Reach, start, step,
}

sig_chld_waitpid-all : (running z : ℕ) → sig_chld_waitpid running z ≡ done 0
unfolding sig_chld_waitpid
sig_chld_waitpid-all running zero = refl
sig_chld_waitpid-all running (suc z) = sig_chld_waitpid-all running z

-- With `waitpid` in a loop the handler always returns, and whenever no SIGCHLD is pending, no child that
-- has ended is left, although the kernel delivers one signal for several of them.
pub sig_chld_waitpid-clean :
    (c : Children)
    → Reach sig_chld_waitpid c
    → (sig_chld_waitpid c.running c.zombies ≡ done 0) × (c.pending ≡ false → c.zombies ≡ 0)
sig_chld_waitpid-clean c r = (sig_chld_waitpid-all c.running c.zombies, left r)
  where
    left : {d : Children} → Reach sig_chld_waitpid d → d.pending ≡ false → d.zombies ≡ 0
    left start e = refl
    left (step r (forks c)) e = left r e
    left (step r (ends c n s)) e = absurd (cc e)
    left (step r (handles c z p ran)) e = cc (ran, sig_chld_waitpid-all c.running c.zombies)

-- With one `wait` any number of children that have ended can be left for good, with no SIGCHLD pending.
pub sig_chld_wait-leaves :
    (n : ℕ) → Reach sig_chld_wait (record { running = 0; zombies = n; pending = false })
unfolding sig_chld_wait
sig_chld_wait-leaves zero = start
sig_chld_wait-leaves (suc n) =
    let both : 0 + 1 + 1 ≡ 2 = refl in
    let two : Reach sig_chld_wait (record { running = 0 + 1 + 1; zombies = n; pending = false }) =
      step (step (sig_chld_wait-leaves n) (forks _)) (forks _) in
    let ended = step (step two (ends _ 1 both)) (ends _ 0 refl) in
    let left : n + 1 + 1 ≡ suc (suc n) = omega arith in
    step ended (handles _ (suc n) refl (rw left refl))
