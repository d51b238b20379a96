-- ===== src/Wrap/Retry.antt =====
-- `Accept`, which tries again after a connection that was aborted, and the wrappers that insist on
-- whole transfers.
use network_program.Prelude.{
  ℕ, ◌<◌, ◌≤◌, ◌≡◌, ◌⊎◌, ◌^◌, ◌+◌, refl, ◌∙◌, List, [], ◌∷◌, ◌++◌, Bool-cases, inl, inr, arith,
  true, lt→ltb, not, ◌%◌, ◌==◌, if◌then◌else◌,
}
use network_program.Prelude.Int.{pos}
use network_program.Sys.{
  Errno, eintr, econnaborted, eproto, to_ssize, WriteResult, wrote, refused, Outcome, done, exits,
  waits, Void,
}
use network_program.Wrap.{exits_if}
use network_program.Wrap.Sock.{AcceptResult, accepted, rejected, accept_or_exit}
use network_program.Wrap.Transfer.{
  send_or_exit, sendto_or_exit, sendmsg_or_exit, write_or_exit, iov_total,
}

abbrev pub Aborted : Errno → Type 0
Aborted e = (e ≡ econnaborted) ⊎ (e ≡ eproto)

-- Results of connections that were aborted before they were accepted.
pub data AllAborted : List AcceptResult → Type 0 where
  none_yet : AllAborted []
  again :
      {e : Errno} {rs : List AcceptResult}
      → Aborted e
      → AllAborted rs
      → AllAborted (rejected e ∷ rs)

retried :
    (e : Errno) (rs : List AcceptResult)
    → Aborted e
    → accept_or_exit (rejected e ∷ rs) ≡ accept_or_exit rs
unfolding accept_or_exit
retried e rs (inl h) = rw h refl
retried e rs (inr h) = rw h refl

skip_aborted :
    {front : List AcceptResult} (rs : List AcceptResult)
    → AllAborted front
    → accept_or_exit (front ++ rs) ≡ accept_or_exit rs
skip_aborted rs none_yet = refl
skip_aborted rs (again {e = e} {rs = front} a h) = retried e (front ++ rs) a ∙ skip_aborted rs h

-- After any number of aborted connections `Accept` returns the first descriptor and leaves the
-- later results alone, ends the process at the first other error, and waits where there is
-- neither.
pub accept_or_exit-first :
    (front rest : List AcceptResult) (n : ℕ) (e : Errno)
    → AllAborted front
    → ¬ Aborted e
    → (accept_or_exit (front ++ accepted n ∷ rest) ≡ done (n, rest))
      × (accept_or_exit (front ++ rejected e ∷ rest) ≡ exits)
      × (accept_or_exit (front ++ []) ≡ waits)
unfolding accept_or_exit
accept_or_exit-first front rest n e h other = (
  skip_aborted (accepted n ∷ rest) h,
  skip_aborted (rejected e ∷ rest) h ∙ fatal e other,
  skip_aborted [] h,
)
  where
    fatal : (e : Errno) → ¬ Aborted e → accept_or_exit (rejected e ∷ rest) ≡ exits
    fatal econnaborted other = absurd (other (inl refl))
    fatal eproto other = absurd (other (inr refl))
    fatal eintr other = refl
    fatal _ other = refl

-- The bytes of a message, with no wrap-around.
abbrev pub total : List ℕ → ℕ
total [] = 0
total (n ∷ ns) = n + total ns

-- The kernel takes no more bytes than it is given.
abbrev pub Short : ℕ → WriteResult → Type 0
Short nbytes (wrote n) = n ≤ nbytes
Short nbytes (refused e) = Unit

abbrev pub whole : ℕ → WriteResult → Outcome Void
whole nbytes (wrote n) = if n == nbytes then done tt else exits
whole nbytes (refused e) = exits

to_ssize-pos : (n : ℕ) → n < 2 ^ 63 → to_ssize n ≡ pos n
to_ssize-pos n h = rw (lt→ltb n (2 ^ 63) h) refl

iov_total-lt : (lens : List ℕ) → total lens < 2 ^ 63 → iov_total lens ≡ total lens
unfolding iov_total
iov_total-lt [] h = refl
iov_total-lt (n ∷ ns) h = ground (arith, iov_total-lt ns (omega arith))

same_count :
    (n nbytes : ℕ)
    → exits_if {A = Void} (not (n == nbytes)) tt ≡ (if n == nbytes then done tt else exits)
same_count n nbytes = elim (Bool-cases (n == nbytes)) [ inl e ↦ rw e refl | inr e ↦ rw e refl ]

-- For fewer than 2 ^ 63 bytes, the wrappers that send return exactly where the kernel took every
-- byte, and end the process where it took fewer or failed; `Sendmsg` counts the bytes of all parts of the message.
pub sends-Whole :
    (nbytes : ℕ) (lens : List ℕ) (r : WriteResult)
    → nbytes < 2 ^ 63
    → total lens ≡ nbytes
    → Short nbytes r
    → (send_or_exit nbytes r ≡ whole nbytes r)
      × (sendto_or_exit nbytes r ≡ whole nbytes r)
      × (sendmsg_or_exit lens r ≡ whole nbytes r)
      × (write_or_exit nbytes r ≡ whole nbytes r)
unfolding send_or_exit sendto_or_exit sendmsg_or_exit write_or_exit
sends-Whole nbytes lens (wrote n) small sum h =
    let signed_count = to_ssize-pos nbytes small in
    let parts : iov_total lens ≡ nbytes = iov_total-lt lens (omega (arith, sum)) ∙ sum in
    let count : n % 2 ^ 64 ≡ n = omega arith in
    (
      rw signed_count (same_count n nbytes),
      rw signed_count (same_count n nbytes),
      rw (parts, signed_count) (same_count n nbytes),
      rw count (same_count n nbytes),
    )
sends-Whole nbytes lens (refused e) small sum h =
    let signed_count = to_ssize-pos nbytes small in
    let parts : iov_total lens ≡ nbytes = iov_total-lt lens (omega (arith, sum)) ∙ sum in
    (rw signed_count refl, rw signed_count refl, rw (parts, signed_count) refl, ground arith)

-- `Sendto` where the kernel takes every byte.
pub sent_whole : (n : ℕ) → n < 2 ^ 63 → sendto_or_exit n (wrote n) ≡ done tt
sent_whole n h =
    let same : (n == n) ≡ true = ground arith in
    (sends-Whole n (n ∷ []) (wrote n) h (omega arith) (omega arith)).1 ∙ rw same refl
