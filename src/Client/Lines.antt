-- ===== src/Client/Lines.antt =====
-- `str_cli` with a server that sends back what it receives.
use network_program.Prelude.{
  ℕ, zero, suc, ◌-◌, ◌≤◌, ◌<◌, ◌^◌, ◌≡◌, ◌∙◌, refl, sym, ap, List, [], ◌∷◌, ◌++◌, append_assoc,
  append-nil, length, true, false, arith, ◌==◌, ltb,
}
use mathlib.Core.Path.{subst}
use network_program.Sys.{ReadResult, Outcome, done, ◌>>=◌, max_line}
use network_program.Stream.Supply.{Ending}
use network_program.Stream.Writen.Spec.{Takes, accepted, writen_or_exit-bind}
use network_program.Stream.Readline.{Reader, ReadlineEnd, newline, readline}
use network_program.Stream.Readline.Buffer.{Holds}
use network_program.Stream.Readline.Spec.{
  first_line, after_line, has_newline, line_result, Agrees, ends, still_waits, readline-Agrees,
}
use network_program.Echo.{Round, text, str_echo}
use network_program.Echo.Back.{input, reads, AllKind, str_echo-input}
use network_program.Client.{readline_or_exit, Talk, sends, prints, Line, printed, str_cli}

-- A line of a text: it ends with its only newline and has no 0.
pub data IsLine : List ℕ → Type 0 where
  last : IsLine (newline ∷ [])
  more :
      {c : ℕ} {l : List ℕ} → (c == newline) ≡ false → (c == 0) ≡ false → IsLine l → IsLine (c ∷ l)

text-Line : {l : List ℕ} → IsLine l → (text l ≡ l) × (text (l ++ 0 ∷ []) ≡ l)
text-Line last = (refl, refl)
text-Line (more {c} a b h) = let rest = text-Line h in (rw (b, rest.0) refl, rw (b, rest.1) refl)

-- The line that `readline` finds in front of other bytes.
first_line-Line :
    (m : ℕ) (s : List ℕ) {l : List ℕ}
    → IsLine l
    → length l ≤ m
    → (first_line m (l ++ s) ≡ l) × (after_line m (l ++ s) ≡ s)
first_line-Line zero s last h = absurd (omega (arith, h))
first_line-Line zero s (more a b i) h = absurd (omega (arith, h))
first_line-Line (suc m) s last h = (refl, refl)
first_line-Line (suc m) s (more {c} a b i) h =
    let rest = first_line-Line m s i (omega (arith, h)) in
    (rw a (ap (λ l. c ∷ l) rest.0), rw a rest.1)

has_newline-Line : {l : List ℕ} → IsLine l → has_newline l ≡ true
has_newline-Line last = refl
has_newline-Line (more {c} a b i) = rw (a, has_newline-Line i) refl

line_result-Line :
    (l s : List ℕ) (e : Ending)
    → IsLine l
    → length l < max_line
    → line_result max_line (l ++ s) e ≡ done (length l, l ++ 0 ∷ [], s)
line_result-Line l s e i h =
    let parts = first_line-Line (max_line - 1) s i (omega (arith, h)) in
    rw (parts.0, parts.1, has_newline-Line i) refl

-- The line is read, and the reader holds the bytes behind it.
record Got (o : Outcome ReadlineEnd) (l s : List ℕ) : Type 0 where
  taken : ReadlineEnd
  stop : Ending
  ran : o ≡ done taken
  value : taken.value ≡ length l
  stored : taken.stored ≡ l ++ 0 ∷ []
  left : Holds taken.reader taken.rest s stop

Got-Agrees :
    (o : Outcome ReadlineEnd) (l s : List ℕ) (p : Outcome (ℕ × List ℕ × List ℕ))
    → Agrees o p
    → p ≡ done (length l, l ++ 0 ∷ [], s)
    → Got o l s
Got-Agrees o l s p (ends x t e ran h) eq =
    let same : t ≡ s = cc eq in
    record {
      taken = x;
      stop = e;
      ran = ran;
      value = cc eq;
      stored = cc eq;
      left = subst (λ u. Holds x.reader x.rest u e) same h;
    }
Got-Agrees o l s p (still_waits ran) eq = absurd (cc eq)

read-Line :
    (l s : List ℕ) (r : Reader) (rs : List ReadResult) (e : Ending)
    → IsLine l
    → length l < max_line
    → Holds r rs (l ++ s) e
    → Got (readline_or_exit max_line r rs) l s
unfolding readline_or_exit
read-Line l s r rs e i h holds =
    let g =
      Got-Agrees (readline max_line r rs) l s (line_result max_line (l ++ s) e)
        (readline-Agrees max_line r rs (l ++ s) e (omega arith) holds)
        (line_result-Line l s e i h) in
    let small : ltb g.taken.value (2 ^ 63) ≡ true = ground (arith, h, g.value) in
    record {
      taken = g.taken;
      stop = g.stop;
      ran = rw (g.ran, small) refl;
      value = g.value;
      stored = g.stored;
      left = g.left;
    }

-- The text of the input, and its lines with what the kernel answers for them.
abbrev pub whole : List Line → List ℕ
whole [] = []
whole (l ∷ ls) = l.sendline ++ whole ls

abbrev pub Typed : List Line → Type 0
Typed [] = Unit
Typed (l ∷ ls) =
    IsLine l.sendline
    × (length l.sendline < max_line)
    × Takes (length l.sendline) l.writes
    × (length l.sendline ≤ accepted l.writes)
    × Typed ls

positive : {l : List ℕ} → IsLine l → 0 < length l
positive last = omega arith
positive (more a b i) = omega arith

printed-Line :
    (x : ReadlineEnd) (l : List ℕ) (t : Talk)
    → IsLine l
    → x.value ≡ length l
    → x.stored ≡ l ++ 0 ∷ []
    → printed x (done t) ≡ done (prints l t)
unfolding printed
printed-Line x l t i value stored =
    let some_bytes : (x.value == 0) ≡ false = ground (arith, value, positive i) in
    rw (some_bytes, stored, (text-Line i).1) refl

-- With lines that the server sends back, however the stream is cut into reads, the client sends and
-- prints the whole input.
str_cli-whole :
    (ls : List Line) (r : Reader) (rs : List ReadResult) (s : List ℕ) (e : Ending)
    → Typed ls
    → Holds r rs (whole ls ++ s) e
    → str_cli ls r rs ≡ done (whole ls, whole ls)
unfolding str_cli
str_cli-whole [] r rs s e h holds = refl
str_cli-whole (l ∷ ls) r rs s e h holds =
    let ahead : l.sendline ++ (whole ls ++ s) ≡ whole (l ∷ ls) ++ s =
      sym (append_assoc l.sendline (whole ls) s) in
    let g =
      read-Line l.sendline (whole ls ++ s) r rs e h.0 h.1
        (subst (λ u. Holds r rs u e) (sym ahead) holds) in
    let rest : str_cli ls g.taken.reader g.taken.rest ≡ done (whole ls, whole ls) =
      str_cli-whole ls g.taken.reader g.taken.rest s g.stop h.4 g.left in
    let shown = printed-Line g.taken l.sendline (whole ls, whole ls) h.0 g.value g.stored in
    let sent =
      writen_or_exit-bind l.sendline l.writes
        (λ sent. readline_or_exit max_line r rs >>= λ x.
          printed x (str_cli ls x.reader x.rest) >>= λ t. done (sends sent t))
        (omega (arith, h.1)) h.2 h.3 in
    rw (text-Line h.0).0 (sent ∙ rw (g.ran, rest, shown) refl)

-- A client and `str_echo`, the server that reads what the client sends: where the client has the bytes of
-- the server's writes to read, the server sends back the whole input, and the client returns with all
-- of it sent and printed.
pub str_cli-str_echo :
    (ls : List Line) (server : List Round) (r : Reader) (rs : List ReadResult) (s : List ℕ)
    (e : Ending)
    → Typed ls
    → AllKind server
    → input (reads server) ≡ done (whole ls)
    → str_echo server ≡ done s
    → Holds r rs s e
    → (s ≡ whole ls) × (str_cli ls r rs ≡ done (whole ls, whole ls))
str_cli-str_echo ls server r rs s e typed kind arrives answered holds =
    let back : s ≡ whole ls = cc (str_echo-input server kind, answered, arrives) in
    let all : s ≡ whole ls ++ [] = back ∙ sym (append-nil (whole ls)) in
    (back, str_cli-whole ls r rs [] e typed (subst (λ u. Holds r rs u e) all holds))
