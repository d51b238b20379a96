-- ===== src/WebChild.antt =====
-- server/web_clild.cpp, the service of the servers under server/, and the requests of their client,
-- server/client/main.cpp. `Readline` is taken to give the lines, `atol` and `snprintf` are those of
-- the language's library for the texts that occur.
pub mod Served
mod Tests
use network_program.Prelude.{
  ℕ, zero, suc, ◌+◌, ◌-◌, ◌*◌, ◌%◌, ◌^◌, Bool, true, false, ◌&&◌, ◌||◌, List, [], ◌∷◌, ◌++◌, length,
  take, ltb, leb, ◌==◌, if◌then◌else◌,
}
use network_program.Prelude.Int.{ℤ, pos, negsuc}
use network_program.Sys.{WriteResult, Outcome, done, exits, waits, fault, ◌>>=◌, max_line}
use network_program.Stream.Writen.{writen_or_exit}
use network_program.Ntop.{decimal}

-- `MAXN`, the same in both programs.
abbrev pub max_n : ℕ
max_n = 16384

abbrev pub is_digit : ℕ → Bool
is_digit c = leb b'0' c && leb c b'9'

-- The digits at the start of a text.
abbrev pub digits : ℕ → List ℕ → ℕ
digits n [] = n
digits n (c ∷ cs) = let rest = digits (n * 10 + (c - b'0')) cs in if is_digit c then rest else n

abbrev negated : ℕ → ℤ
negated zero = pos 0
negated (suc n) = negsuc n

-- `atol` behind the blanks, as far as a `long` holds the number.
abbrev signed : List ℕ → ℤ
signed [] = pos 0
signed (c ∷ cs) =
    if c == b'-'
    then negated (digits 0 cs)
    else (if c == b'+' then pos (digits 0 cs) else pos (digits 0 (c ∷ cs)))

-- Blanks are the space and the characters from tab to carriage return.
unfoldable pub atol : List ℕ → ℤ
atol [] = pos 0
atol (c ∷ cs) =
    let rest = atol cs in if (c == b' ') || (leb 9 c && leb c 13) then rest else signed (c ∷ cs)

-- A number of 32 bits as an `int`, and what is left of a `long` that is stored into an `int`.
abbrev int_of : ℕ → ℤ
int_of w = if ltb w (2 ^ 31) then pos w else negsuc (2 ^ 32 - w - 1)

unfoldable pub to_int : ℤ → ℤ
to_int (pos n) = int_of (n % 2 ^ 32)
to_int (negsuc n) = int_of (2 ^ 32 - 1 - n % 2 ^ 32)

-- The answer to one line, in the bytes of `result`, of which there are MAXLINE.
unfoldable pub answer : List ℕ → List WriteResult → ℤ → Outcome (List ℕ)
answer result ws (negsuc n) = exits
answer result ws (pos n) =
    if (n == 0) || ltb max_n n
    then exits
    else if ltb (length result) n
    then fault
    else (writen_or_exit (take n result) ws >>= λ e. done e.sent)

-- `web_child`: what it sends, by the lines that `Readline` gives until it returns 0 and the results
-- of `write` for each.
unfoldable pub web_child : List ℕ → List (List ℕ × List WriteResult) → Outcome (List ℕ)
unfolding answer atol to_int
web_child result [] = done []
web_child result ((line, ws) ∷ rs) = answer result ws (to_int (atol line)) >>= λ sent.
    web_child result rs >>= λ more. done (sent ++ more)

-- The client's `snprintf(request, sizeof(request), "%ld\n", nbytes)`, for a number that is not
-- negative.
unfoldable pub request : ℕ → List ℕ
unfolding decimal
request nbytes = decimal 19 nbytes ++ b'\n' ∷ []
