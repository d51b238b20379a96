-- ===== src/Rtt/Request.antt =====
-- rtt/dg_send_recv.cpp: a request over UDP, sent again until its answer comes.
use network_program.Prelude.{
  ℕ, ◌+◌, ◌-◌, ◌%◌, ◌^◌, Bool, true, false, not, ◌||◌, Option, none, some, List, [], ◌∷◌, ltb, ◌==◌,
  if◌then◌else◌,
}
use network_program.Prelude.Int.{ℤ, pos, negsuc, ltb_ℤ}
use network_program.Sys.{Outcome, done, waits}
use network_program.Rtt.{
  Floats, Clock, RttInfo, rtt_init, rtt_newpack, rtt_start, rtt_stop, rtt_timeout, rtt_ts,
}

-- `sizeof(struct hdr)`.
abbrev pub hdr_size : ℕ
hdr_size = 8

-- What `Recvmsg` stores: the count that it returns and the header, which is whole where the count
-- is `hdr_size` at least.
pub record Datagram : Type 0 where
  pub size : ℕ
  pub seq : ℕ
  pub ts : ℕ

-- One round of `sendagain`: the time at the call of `rtt_ts` for the header, the datagrams that
-- arrive before the alarm, and the time at the call of `rtt_ts` after an answer.
pub record Try : Type 0 where
  pub sent : Clock
  pub heard : List Datagram
  pub now : Clock

-- The static variables `rttinit`, `rttinfo` and `sendhdr.seq`.
pub record Requester (F : Type 0) : Type 0 where
  pub rttinit : Bool
  pub rttinfo : RttInfo F
  pub seq : ℕ

-- The result, the headers that were sent (`seq` and `ts`), and the alarms that were set.
pub record Reply (F : Type 0) : Type 0 where
  pub value : ℤ
  pub state : Requester F
  pub headers : List (ℕ × ℕ)
  pub alarms : List ℤ

-- The `do` loop, until the alarm jumps out of it.
unfoldable pub receive : ℕ → List Datagram → Option Datagram
receive seq [] = none
receive seq (d ∷ ds) =
    let rest = receive seq ds in if ltb d.size hdr_size || not (d.seq == seq) then rest else some d

abbrev pub after_send : {F : Type 0} → ℕ × ℕ → ℤ → Outcome (Reply F) → Outcome (Reply F)
after_send h a (done r) = done (record r { headers = h ∷ r.headers; alarms = a ∷ r.alarms })
after_send h a o = o

abbrev answered : {F : Type 0} → Floats F → RttInfo F → ℕ → Try → Datagram → Reply F
answered o r seq t d = record {
  value = pos (d.size - hdr_size);
  state = record {
    rttinit = true;
    rttinfo = rtt_stop o ((rtt_ts r t.now + 2 ^ 32 - d.ts % 2 ^ 32) % 2 ^ 32) r;
    seq = seq;
  };
  headers = [];
  alarms = [];
}

abbrev given_up : {F : Type 0} → RttInfo F → ℕ → Reply F
given_up r seq = record {
  value = negsuc 0;
  state = record { rttinit = false; rttinfo = r; seq = seq };
  headers = [];
  alarms = [];
}

-- From `sendagain` on. `Sendmsg` is taken to return.
unfoldable pub send_loop : {F : Type 0} → Floats F → RttInfo F → ℕ → List Try → Outcome (Reply F)
send_loop o r seq [] = waits
send_loop o r seq (t ∷ ts) =
    let again = rtt_timeout o r in
    let rest = send_loop o again.0 seq ts in
    after_send (seq, rtt_ts r t.sent) (rtt_start o r)
      (elim (receive seq t.heard) [
        | some d ↦ done (answered o r seq t d)
        | none ↦ if ltb_ℤ again.1 (pos 0) then done (given_up again.0 seq) else rest
      ])

-- The time is the one that `rtt_init` would find. `seq` has 32 bits.
unfoldable pub dg_send_recv :
    {F : Type 0} → Floats F → Clock → Requester F → List Try → Outcome (Reply F)
dg_send_recv o tv q ts =
    let info = if q.rttinit then q.rttinfo else rtt_init o tv q.rttinfo in
    send_loop o (rtt_newpack info) ((q.seq + 1) % 2 ^ 32) ts
