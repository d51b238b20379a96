-- ===== src/Sdr.antt =====
-- mcast/mysdr/main.cpp: the loop that prints session announcements.
-- A byte of `buf` that nothing was stored in is `none`.
pub mod Announced
mod Tests
use network_program.Prelude.{
  ℕ, zero, suc, ◌+◌, ◌*◌, ◌/◌, ◌%◌, ◌^◌, List, [], ◌∷◌, ◌++◌, length, map, drop, replicate, Option,
  none, some, Bool, true, false, ◌||◌, ltb, ◌==◌, if◌then◌else◌,
}
use network_program.Sys.{ReadResult, got, failed, Outcome, done, exits, fault, ◌>>=◌}

abbrev pub Buffer : Type 0
Buffer = List (Option ℕ)

-- `sizeof(buf)`: two words and BUFFSIZE bytes.
abbrev pub buffer_size : ℕ
buffer_size = 8200

-- `Recvfrom` stores the datagram, and `((char*)&buf)[n] = 0` a 0 behind it.
abbrev pub receive : List ℕ → Buffer → Buffer
receive [] [] = []
receive [] (c ∷ buf) = some 0 ∷ buf
receive (b ∷ bs) [] = []
receive (b ∷ bs) (c ∷ buf) = some b ∷ receive bs buf

-- `ntohl(buf.sap_header)`.
abbrev pub sap_header : Buffer → Outcome ℕ
sap_header (some a ∷ some b ∷ some c ∷ some d ∷ buf) =
    done (a * 2 ^ 24 + b * 2 ^ 16 + c * 2 ^ 8 + d)
sap_header buf = fault

-- SAP_VERSION, SAP_IPV6, SAP_DELETE, SAP_ENCRYPTED, SAP_COMPRESSED and SAP_AUTHLEN of a header.
abbrev pub sap_version : ℕ → ℕ
sap_version h = h / 2 ^ 29

abbrev pub flag : ℕ → ℕ → Bool
flag bit h = h / 2 ^ bit % 2 == 1

abbrev pub sap_authlen : ℕ → ℕ
sap_authlen h = h / 2 ^ 16 % 256

-- The three tests that go on with the next datagram.
abbrev pub rejected : ℕ → Bool
rejected h = ltb 1 (sap_version h) || (flag 28 h || (flag 26 h || (flag 25 h || flag 24 h)))

-- `strcmp(p, name) == 0`.
unfoldable pub strcmp : Buffer → List ℕ → Outcome Bool
strcmp [] name = fault
strcmp (none ∷ p) name = fault
strcmp (some c ∷ p) [] = done (c == 0)
strcmp (some c ∷ p) (n ∷ name) = let rest = strcmp p name in if c == n then rest else done false

-- `printf("%s\n", p)`: the text that is printed.
unfoldable pub printf : Buffer → Outcome (List ℕ)
printf [] = fault
printf (none ∷ p) = fault
printf (some c ∷ p) =
    let rest = printf p >>= λ text. done (c ∷ text) in if c == 0 then done [] else rest

abbrev pub application_sdp : List ℕ
application_sdp =
    b'a' ∷ b'p' ∷ b'p' ∷ b'l' ∷ b'i' ∷ b'c' ∷ b'a' ∷ b't' ∷ b'i' ∷ b'o' ∷ b'n' ∷ b'/' ∷ b's' ∷ b'd'
    ∷ b'p' ∷ []

-- What is printed of `sap_data`, from the length of the authentication on.
unfoldable pub show_data : Buffer → Outcome (List ℕ)
unfolding strcmp printf
show_data p = strcmp p application_sdp >>= λ same. if same then printf (drop 16 p) else printf p

-- `loop`: the texts that are printed.
unfoldable pub loop : List ReadResult → Buffer → Outcome (List (List ℕ))
unfolding show_data
loop [] buf = done []
loop (failed e ∷ rs) buf = exits
loop (got bs ∷ rs) buf =
    let filled = receive bs buf in
    let rest = loop rs filled in
    sap_header filled >>= λ h.
    if rejected h
    then rest
    else (show_data (drop (8 + sap_authlen h) filled) >>= λ text.
        rest >>= λ more. done (text ∷ more))
