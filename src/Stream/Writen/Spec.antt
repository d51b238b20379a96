-- ===== src/Stream/Writen/Spec.antt =====
-- writen.cpp against what the kernel accepts.
use network_program.Prelude.{
  ℕ, suc, zero, ◌+◌, ◌-◌, ◌^◌, ◌≤◌, ◌<◌, ◌≡◌, ap, ◌⊎◌, inl, inr, ◌∙◌, Bool, true, false, List, [],
  ◌∷◌, ◌++◌, append_assoc, append-nil, length, length-drop, take, drop, take-add, take-append-drop,
  arith, leb, if◌then◌else◌,
}
use network_program.Sys.{
  WriteResult, wrote, refused, eintr, Outcome, done, exits, waits, fault, ◌>>=◌, sub64_le, size_max,
}
use network_program.Stream.Writen.{WritenEnd, writen_loop, writen, writen_or_exit}

-- How many bytes the kernel takes before it refuses one.
abbrev pub accepted : List WriteResult → ℕ
accepted [] = 0
accepted (wrote zero ∷ rs) = 0
accepted (wrote (suc k) ∷ rs) = suc k + accepted rs
accepted (refused eintr ∷ rs) = accepted rs
accepted (refused _ ∷ rs) = 0

-- Whether a refusal, by an error or by a count of 0, stands behind them.
abbrev pub refuses : List WriteResult → Bool
refuses [] = false
refuses (wrote zero ∷ rs) = true
refuses (wrote (suc k) ∷ rs) = refuses rs
refuses (refused eintr ∷ rs) = refuses rs
refuses (refused _ ∷ rs) = true

-- `write` takes no more than it is handed: `n` bytes in all, each call those still left.
abbrev pub Takes : ℕ → List WriteResult → Type 0
Takes n [] = Unit {0}
Takes n (wrote zero ∷ rs) = Unit {0}
Takes n (wrote (suc k) ∷ rs) = (n ≡ 0) ⊎ ((suc k ≤ n) × Takes (n - suc k) rs)
Takes n (refused eintr ∷ rs) = Takes n rs
Takes n (refused _ ∷ rs) = Unit {0}

-- The value returned and the bytes sent.
abbrev pub seen : Outcome WritenEnd → Outcome (ℕ × List ℕ)
seen o = o >>= λ e. done (e.value, e.sent)

abbrev pub promised : List ℕ → List WriteResult → Outcome (ℕ × List ℕ)
promised bs rs =
    if leb (length bs) (accepted rs)
    then done (length bs, bs)
    else if refuses rs
    then done (size_max, take (accepted rs) bs)
    else waits

abbrev promised_from : ℕ → List ℕ → List ℕ → List WriteResult → Outcome (ℕ × List ℕ)
promised_from n ptr sent rs =
    if leb (length ptr) (accepted rs)
    then done (n, sent ++ ptr)
    else if refuses rs
    then done (size_max, sent ++ take (accepted rs) ptr)
    else waits

promised_from_nil :
    (n : ℕ) (sent : List ℕ) (rs : List WriteResult) → promised_from n [] sent rs ≡ done (n, sent)
promised_from_nil n sent rs = ground (arith, append-nil sent)

promised_from_wrote :
    (n k : ℕ) (ptr sent : List ℕ) (rs : List WriteResult)
    → suc k ≤ length ptr
    → promised_from n ptr sent (wrote (suc k) ∷ rs)
      ≡ promised_from n (drop (suc k) ptr) (sent ++ take (suc k) ptr) rs
promised_from_wrote n k ptr sent rs h = ground (
  arith,
  length-drop (suc k) ptr,
  take-add (suc k) (accepted rs) ptr,
  take-append-drop (suc k) ptr,
  append_assoc sent (take (suc k) ptr) (take (accepted rs) (drop (suc k) ptr)),
  append_assoc sent (take (suc k) ptr) (drop (suc k) ptr),
)

module _ (n : ℕ) (small : n < 2 ^ 63) where
  writen_loop_lem :
      (ptr sent : List ℕ) (rs : List WriteResult)
      → length ptr ≤ n
      → Takes (length ptr) rs
      → seen (writen_loop n (length ptr) ptr sent rs) ≡ promised_from n ptr sent rs
  unfolding writen_loop
  writen_loop_lem [] sent [] h w = ground (arith, append-nil sent)
  writen_loop_lem [] sent (r ∷ rs) h w = ground (arith, promised_from_nil n sent (r ∷ rs))
  writen_loop_lem (p ∷ ps) sent [] h w = ground arith
  writen_loop_lem (p ∷ ps) sent (wrote zero ∷ rs) h w = ground (arith, append-nil sent)
  writen_loop_lem (p ∷ ps) sent (wrote (suc k) ∷ rs) h (inl e) = cc e
  writen_loop_lem (p ∷ ps) sent (wrote (suc k) ∷ rs) h (inr (fits, w)) = ground (
    arith,
    sub64_le (length (p ∷ ps)) (suc k) fits (omega arith),
    promised_from_wrote n k (p ∷ ps) sent rs fits,
    length-drop (suc k) (p ∷ ps),
    writen_loop_lem (drop (suc k) (p ∷ ps)) (sent ++ take (suc k) (p ∷ ps)) rs
        (omega (arith, length-drop (suc k) (p ∷ ps))) (rw (length-drop (suc k) (p ∷ ps)) w),
  )
  writen_loop_lem (p ∷ ps) sent (refused eintr ∷ rs) h w =
      ground (arith, writen_loop_lem (p ∷ ps) sent rs h w)
  writen_loop_lem (p ∷ ps) sent (refused _ ∷ rs) h w = ground (arith, append-nil sent)

-- For fewer than 2 ^ 63 bytes and all results of `write` that take no more than they are handed,
-- `writen` returns the full count with all bytes sent, in order, if the kernel takes that many; the
-- `size_t` -1 with exactly the bytes taken before it if an error other than EINTR or a count of 0
-- comes first; it still waits only if the results end before both.
pub writen-promised :
    (bs : List ℕ) (rs : List WriteResult)
    → length bs < 2 ^ 63
    → Takes (length bs) rs
    → seen (writen bs rs) ≡ promised bs rs
unfolding writen
writen-promised bs rs small w =
    writen_loop_lem (length bs) small bs [] rs (omega arith) w ∙ ground arith

-- `Writen` returns, if it does, with every byte sent, and it ends the process exactly when the
-- kernel refuses before it took them all.
pub writen_or_exit_complete :
    (bs : List ℕ) (rs : List WriteResult)
    → length bs < 2 ^ 63
    → Takes (length bs) rs
    → (length bs ≤ accepted rs → seen (writen_or_exit bs rs) ≡ done (length bs, bs))
      × (accepted rs < length bs → refuses rs ≡ true → writen_or_exit bs rs ≡ exits)
      × (accepted rs < length bs → refuses rs ≡ false → writen_or_exit bs rs ≡ waits)
unfolding writen_or_exit
writen_or_exit_complete bs rs small w = (
  λ h. ground (arith, writen-promised bs rs small w),
  λ h k. ground (arith, writen-promised bs rs small w),
  λ h k. ground (arith, writen-promised bs rs small w),
)

abbrev sent_bytes : Outcome (ℕ × List ℕ) → List ℕ
sent_bytes (done q) = q.1
sent_bytes _ = []

after_seen :
    {B : Type 0} (bs : List ℕ) (o : Outcome WritenEnd) (f : List ℕ → Outcome B)
    → seen o ≡ done (length bs, bs)
    → (o >>= λ e. f e.sent) ≡ f bs
after_seen bs (done e) f h = ap f (ap sent_bytes h)
after_seen bs exits f h = absurd (cc h)
after_seen bs waits f h = absurd (cc h)
after_seen bs fault f h = absurd (cc h)

-- Where the kernel takes all bytes, what follows `Writen` goes on with them.
pub writen_or_exit-bind :
    {B : Type 0} (bs : List ℕ) (rs : List WriteResult) (f : List ℕ → Outcome B)
    → length bs < 2 ^ 63
    → Takes (length bs) rs
    → length bs ≤ accepted rs
    → (writen_or_exit bs rs >>= λ e. f e.sent) ≡ f bs
writen_or_exit-bind bs rs f small w h =
    after_seen bs (writen_or_exit bs rs) f ((writen_or_exit_complete bs rs small w).0 h)
