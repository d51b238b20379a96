-- ===== src/Stream/Tests.antt =====
-- Runs of the stream functions, and the theorems at concrete inputs.
use network_program.Prelude.{
  ℕ, ◌≡◌, refl, inr, List, [], ◌∷◌, ◌++◌, length-replicate, replicate, arith,
}
use network_program.Prelude.Int.{pos}
use network_program.Sys.{
  ReadResult, got, failed, eintr, econnreset, WriteResult, wrote, refused, done, size_max,
}
use network_program.Stream.Supply.{end_of_file}
use network_program.Stream.Readn.{readn}
use network_program.Stream.Readn.Spec.{seen, promised, readn-promised}
use network_program.Stream.Writen.{writen}
use network_program.Stream.Writen.Spec
use network_program.Stream.Writen.Spec.{
  Takes, writen-promised, writen_or_exit_complete, accepted, refuses,
}
use network_program.Stream.Readline.{Reader, readline}
use network_program.Stream.Readline.Buffer.{Holds}
use network_program.Stream.Readline.Spec.{Agrees, line_result, readline-Agrees, first_line}
use network_program.Stream.Readline.Fault.{Line, readline_stale}

abbrev pieces : List ReadResult
pieces = got (1 ∷ 2 ∷ []) ∷ failed eintr ∷ got (3 ∷ []) ∷ []

readn-promised_example : seen (readn 3 pieces) ≡ promised 3 pieces
readn-promised_example =
    readn-promised 3 pieces (omega arith) (inr (omega arith, inr (omega arith, tt)))

readn_interrupted : promised 3 pieces ≡ done (pos 3, 1 ∷ 2 ∷ 3 ∷ [])
readn_interrupted = refl

readn_short : seen (readn 9 (got (1 ∷ []) ∷ got [] ∷ [])) ≡ done (pos 1, 1 ∷ [])
unfolding readn
readn_short = refl

abbrev parts : List WriteResult
parts = wrote 1 ∷ refused eintr ∷ wrote 2 ∷ []

abbrev three : List ℕ
three = 7 ∷ 8 ∷ 9 ∷ []

writen-promised_example : Spec.seen (writen three parts) ≡ Spec.promised three parts
writen-promised_example =
    writen-promised three parts (omega arith) (inr (omega arith, inr (omega arith, tt)))

writen_fails :
    Spec.seen (writen three (wrote 1 ∷ refused econnreset ∷ [])) ≡ done (size_max, 7 ∷ [])
unfolding writen
writen_fails = refl

fresh : Reader
fresh = record { cnt = 0; ptr = 0; buf = replicate 4096 0 }

abbrev two_lines : List ReadResult
two_lines = got (b'h' ∷ b'i' ∷ b'\n' ∷ b'y' ∷ []) ∷ got [] ∷ []

fresh-Holds : Holds fresh two_lines (b'h' ∷ b'i' ∷ b'\n' ∷ b'y' ∷ []) end_of_file
unfolding fresh
fresh-Holds = record {
  size = length-replicate {A = ℕ} 4096 0;
  inside = omega arith;
  clean = (omega arith, tt);
  bytes = refl;
  stop = refl;
}

readline-Agrees_example :
    Agrees
      (readline 100 fresh two_lines)
      (line_result 100 (b'h' ∷ b'i' ∷ b'\n' ∷ b'y' ∷ []) end_of_file)
readline-Agrees_example = readline-Agrees 100 fresh two_lines _ _ (omega arith) fresh-Holds

line_of_three :
    line_result 100 (b'h' ∷ b'i' ∷ b'\n' ∷ b'y' ∷ []) end_of_file
    ≡ done (3, b'h' ∷ b'i' ∷ b'\n' ∷ 0 ∷ [], b'y' ∷ [])
line_of_three = refl

-- A line that does not fit: two bytes are stored, and 3 is returned.
line_cut :
    line_result 3 (b'h' ∷ b'i' ∷ b'\n' ∷ []) end_of_file
    ≡ done (3, b'h' ∷ b'i' ∷ 0 ∷ [], b'\n' ∷ [])
line_cut = refl

readline_stale_example :
    Line (readline 11 fresh (failed econnreset ∷ [])) 11 (first_line 10 fresh.buf ++ 0 ∷ []) []
unfolding fresh
readline_stale_example =
    readline_stale 10 fresh econnreset [] refl (length-replicate {A = ℕ} 4096 0) (omega arith)
      (omega arith)
