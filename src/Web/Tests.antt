-- ===== src/Web/Tests.antt =====
-- Two files over one connection at a time.
use network_program.Prelude.{ℕ, ◌<◌, ◌≡◌, refl, true, none, some, List, [], ◌∷◌, Option, inr, arith}
use network_program.Stream.Writen.{writen_or_exit, writen, writen_loop}
use network_program.Sys.{
  Errno, einprogress, econnreset, etimedout, got, wrote, refused, Outcome, done, exits, Ensures,
}
use network_program.Web.{
  Web, Event, Command, Start, fd_setsize, set_bit, after_connect, init, write_get_cmd,
  start_connect, replace_first, start_one, fill, serve, scan, round, run,
}
use network_program.Web.Starting.{Connects, IsSent, Starts, Works}
use network_program.Web.Counts.{IsCounted, init-IsCounted, round-IsCounted}
use network_program.Web.Progress.{IsOver, run-init-IsOver}

-- Three bytes, taken in two calls.
abbrev request : Command
request = record { text = 71 ∷ 69 ∷ 84 ∷ []; writes = wrote 2 ∷ wrote 1 ∷ [] }

request-IsSent : IsSent request
request-IsSent = record {
  fits = omega arith;
  takes = inr (omega arith, inr (omega arith, tt));
  taken = omega arith;
}

abbrev connect_to : ℕ → Option Errno → Start
connect_to fd c = record { prepared = true; fd = fd; connect = c; command = request }

abbrev at_end : Event
at_end = record {
  selects = true;
  rs = λ f. true;
  ws = λ f. true;
  reads = λ f. got [];
  closes = λ f. true;
  commands = λ f. request;
}

abbrev rounds : List (List Start × Event)
rounds =
    (connect_to 4 (some einprogress) ∷ [], at_end)
    ∷ ([], at_end)
    ∷ (connect_to 5 none ∷ [], at_end)
    ∷ []

-- The peer does not answer.
abbrev broken : Event
broken = record at_end { commands = λ f. record request { writes = refused etimedout ∷ [] } }

abbrev summary : Outcome Web → List ℕ
summary (done w) = w.nconn ∷ w.nlefttoconn ∷ w.nlefttoread ∷ []
summary _ = []

both_read : summary (run 1 rounds (init 2)) ≡ 0 ∷ 0 ∷ 0 ∷ []
unfolding run round init fill scan serve start_one start_connect after_connect replace_first
    write_get_cmd set_bit writen_or_exit writen writen_loop
both_read = refl

after_one :
    summary (round 1 (connect_to 4 (some einprogress) ∷ []) at_end (init 2)) ≡ 1 ∷ 1 ∷ 2 ∷ []
unfolding round init fill scan serve start_one start_connect after_connect replace_first
    write_get_cmd set_bit writen_or_exit writen writen_loop
after_one = refl

refused_connect : round 1 (connect_to 4 (some econnreset) ∷ []) at_end (init 2) ≡ exits
unfolding round init fill start_one start_connect after_connect
refused_connect = refl

at_end-Works : Works at_end
at_end-Works = record {
  selects = refl;
  readable = λ f. tt;
  closes = λ f. refl;
  sent = λ f. request-IsSent;
}

-- The connect failed later, and so does the request.
failed_later : round 1 (connect_to 4 (some einprogress) ∷ []) broken (init 2) ≡ exits
unfolding round init fill scan serve start_one start_connect after_connect replace_first
    write_get_cmd set_bit writen_or_exit writen writen_loop
failed_later = refl

connect_to-Starts :
    (fd : ℕ) (c : Option Errno) → fd < fd_setsize → Connects c → Starts (connect_to fd c)
connect_to-Starts fd c h ok = record {
  prepared = refl;
  inside = h;
  connects = ok;
  sent = request-IsSent;
}

run-init-IsOver_example : Ensures IsOver (run 1 rounds (init 2))
run-init-IsOver_example = run-init-IsOver 1 2 rounds (
  ((connect_to-Starts 4 (some einprogress) (omega arith) tt, tt), at_end-Works),
  ((tt, at_end-Works), (((connect_to-Starts 5 none (omega arith) tt, tt), at_end-Works), tt)),
)

round-IsCounted_example :
    Ensures (IsCounted 1) (round 1 (connect_to 4 (some einprogress) ∷ []) at_end (init 2))
round-IsCounted_example =
    round-IsCounted 1 (connect_to 4 (some einprogress) ∷ []) at_end (init 2)
      (connect_to-Starts 4 (some einprogress) (omega arith) tt, tt) at_end-Works
      (init-IsCounted 1 2)
