-- ===== src/Sdr/Announced.antt =====
-- Which announcements are printed, and how.
use network_program.Prelude.{
  ℕ, suc, ◌+◌, ◌*◌, ◌/◌, ◌%◌, ◌^◌, ◌<◌, ◌≡◌, ◌⊎◌, inl, inr, refl, ap, sym, ◌∙◌, List, [], ◌∷◌, ◌++◌,
  append_assoc, length, length-append, map, drop, Option, none, some, Bool, true, false, Bool-cases,
  ◌||◌, arith, ltb, ◌==◌, if◌then◌else◌,
}
use mathlib.Core.Path.{subst}
use network_program.Sys.{ReadResult, got, done}
use network_program.Sdr.{
  Buffer, buffer_size, receive, sap_header, sap_authlen, rejected, strcmp, printf, application_sdp,
  show_data, loop,
}

-- What `receive` leaves: the bytes, a 0, and what was there behind them.
receive-drop :
    (bs : List ℕ) (buf : Buffer)
    → length bs < length buf
    → receive bs buf ≡ map some bs ++ some 0 ∷ drop (suc (length bs)) buf
receive-drop [] [] h = absurd (omega (arith, h))
receive-drop [] (c ∷ buf) h = refl
receive-drop (b ∷ bs) [] h = absurd (omega (arith, h))
receive-drop (b ∷ bs) (c ∷ buf) h = ap (λ l. some b ∷ l) (receive-drop bs buf (omega (arith, h)))

receive-length : (bs : List ℕ) (buf : Buffer) → length (receive bs buf) ≡ length buf
receive-length [] [] = refl
receive-length [] (c ∷ buf) = refl
receive-length (b ∷ bs) [] = refl
receive-length (b ∷ bs) (c ∷ buf) = ap suc (receive-length bs buf)

-- The text that a 0 ends, or that has no 0.
abbrev pub until_zero : List ℕ → List ℕ
until_zero [] = []
until_zero (c ∷ cs) = if c == 0 then [] else (c ∷ until_zero cs)

-- What follows a prefix.
abbrev pub behind : List ℕ → List ℕ → Option (List ℕ)
behind [] cs = some cs
behind (n ∷ ns) [] = none
behind (n ∷ ns) (c ∷ cs) = if n == c then behind ns cs else none

-- What is to be shown of a payload: the text behind the type application/sdp, if it has that type,
-- and else its text.
abbrev pub described : List ℕ → List ℕ
described payload = elim (behind (application_sdp ++ 0 ∷ []) payload) [
  | none ↦ until_zero payload
  | some text ↦ until_zero text
]

printf-until_zero :
    (cs : List ℕ) (back : Buffer) → printf (map some cs ++ some 0 ∷ back) ≡ done (until_zero cs)
unfolding printf
printf-until_zero [] back = refl
printf-until_zero (c ∷ cs) back = elim (Bool-cases (c == 0)) [
  | inl zero_byte ↦ rw zero_byte refl
  | inr more ↦ rw (more, printf-until_zero cs back) refl
]

-- A name without a 0.
abbrev IsName : List ℕ → Type 0
IsName [] = Unit
IsName (n ∷ ns) = ((0 == n) ≡ false) × IsName ns

-- The three ways in which the bytes of a payload compare with a name.
abbrev Compared : List ℕ → List ℕ → Buffer → Type 0
Compared name payload p =
    ((rest : List ℕ) × (payload ≡ name ++ 0 ∷ rest) × (strcmp p name ≡ done true))
    ⊎ ((payload ≡ name) ⊎ ((behind (name ++ 0 ∷ []) payload ≡ none) × (strcmp p name ≡ done false)))

strcmp-Compared :
    (name payload : List ℕ) (back : Buffer)
    → IsName name
    → Compared name payload (map some payload ++ some 0 ∷ back)
unfolding strcmp
strcmp-Compared [] [] back h = inr (inl refl)
strcmp-Compared [] (c ∷ cs) back h = elim (Bool-cases (c == 0)) [
  | inl ended ↦
      let at_zero : c ≡ 0 = ground arith in inl (cs, ap (λ d. d ∷ cs) at_zero, ap done ended)
  | inr more ↦
      let other : (0 == c) ≡ false = ground arith in inr (inr (rw other refl, ap done more))
]
strcmp-Compared (n ∷ ns) [] back h = inr (inr (refl, rw h.0 refl))
strcmp-Compared (n ∷ ns) (c ∷ cs) back h = elim (Bool-cases (c == n)) [
  | inl same ↦
      let equal : c ≡ n = ground arith in
      let turned : (n == c) ≡ true = ground arith in
      elim (strcmp-Compared ns cs back h.1) [
        | inl found ↦ inl (found.0, (λ i. equal i ∷ found.1 i), rw same found.2)
        | inr (inl whole) ↦ inr (inl (λ i. equal i ∷ whole i))
        | inr (inr other) ↦ inr (inr (rw turned other.0, rw same other.1))
      ]
  | inr differs ↦
      let turned : (n == c) ≡ false = ground arith in inr (inr (rw turned refl, rw differs refl))
]

application_sdp-IsName : IsName application_sdp
application_sdp-IsName = (
  refl,
  (
    refl,
    (
      refl,
      (
        refl,
        (refl, (refl, (refl, (refl, (refl, (refl, (refl, (refl, (refl, (refl, (refl, tt))))))))))),
      ),
    ),
  ),
)

-- A payload of which not only the type was sent is shown as described.
show_data-described :
    (payload : List ℕ) (back : Buffer)
    → (payload ≡ application_sdp → ⊥)
    → show_data (map some payload ++ some 0 ∷ back) ≡ done (described payload)
unfolding show_data
show_data-described payload back h =
    elim (strcmp-Compared application_sdp payload back application_sdp-IsName) [
      | inl found ↦
          subst (λ cs. show_data (map some cs ++ some 0 ∷ back) ≡ done (described cs)) (sym found.1)
            (printf-until_zero found.0 back)
      | inr (inl whole) ↦ absurd (h whole)
      | inr (inr other) ↦ rw (other.1, other.0) (printf-until_zero payload back)
    ]

-- A datagram: the four bytes of its header, of which the second is the length of the
-- authentication as the loop counts it, the source, the authentication, and the payload.
pub record Announcement : Type 0 where
  pub head : ℕ
  pub h0 : ℕ
  pub h1 : ℕ
  pub source : List ℕ
  pub authentication : List ℕ
  pub payload : List ℕ

abbrev pub datagram : Announcement → List ℕ
datagram d =
    d.head ∷ length d.authentication ∷ d.h0 ∷ d.h1 ∷ (d.source ++ (d.authentication ++ d.payload))

-- The fields have their sizes, the datagram fits into the buffer, and the payload is not only a type.
pub record IsAnnouncement (d : Announcement) : Type 0 where
  pub head : d.head < 256
  pub short : length d.authentication < 256
  pub low : d.h0 < 256
  pub high : d.h1 < 256
  pub address : length d.source ≡ 4
  pub described : d.payload ≡ application_sdp → ⊥
  pub fits : length (datagram d) < buffer_size

-- A version above 1, or the bit for IPv6, deletion, encryption or compression, in the first byte.
abbrev pub is_rejected : ℕ → Bool
is_rejected head =
    ltb 1 (head / 32)
    || ((head / 16 % 2 == 1) || ((head / 4 % 2 == 1) || ((head / 2 % 2 == 1) || (head % 2 == 1))))

drop-map :
    (front : List ℕ) (back : List ℕ) (rest : Buffer)
    → drop (length front) (map some (front ++ back) ++ rest) ≡ map some back ++ rest
drop-map [] back rest = refl
drop-map (b ∷ front) back rest = drop-map front back rest

-- What is to be printed for all datagrams.
abbrev pub texts : List Announcement → List (List ℕ)
texts [] = []
texts (d ∷ ds) = if is_rejected d.head then texts ds else (described d.payload ∷ texts ds)

abbrev pub arrivals : List Announcement → List ReadResult
arrivals [] = []
arrivals (d ∷ ds) = got (datagram d) ∷ arrivals ds

abbrev pub AllAnnouncements : List Announcement → Type 0
AllAnnouncements [] = Unit
AllAnnouncements (d ∷ ds) = IsAnnouncement d × AllAnnouncements ds

header-flags :
    (b a h0 h1 : ℕ)
    → b < 256
    → a < 256
    → h0 < 256
    → h1 < 256
    → let h = b * 2 ^ 24 + a * 2 ^ 16 + h0 * 2 ^ 8 + h1 in
      (rejected h ≡ is_rejected b) × (sap_authlen h ≡ a)
header-flags b a h0 h1 hb ha hl hh =
    let h : ℕ = b * 2 ^ 24 + a * 2 ^ 16 + h0 * 2 ^ 8 + h1 in
    let version : h / 2 ^ 29 ≡ b / 32 = omega (arith, hb, ha, hl, hh) in
    let f28 : h / 2 ^ 28 % 2 ≡ b / 16 % 2 = omega (arith, hb, ha, hl, hh) in
    let f26 : h / 2 ^ 26 % 2 ≡ b / 4 % 2 = omega (arith, hb, ha, hl, hh) in
    let f25 : h / 2 ^ 25 % 2 ≡ b / 2 % 2 = omega (arith, hb, ha, hl, hh) in
    let f24 : h / 2 ^ 24 % 2 ≡ b % 2 = omega (arith, hb, ha, hl, hh) in
    (
      (λ i.
          ltb 1 (version i) || ((f28 i == 1) || ((f26 i == 1) || ((f25 i == 1) || (f24 i == 1))))),
      omega (arith, hb, ha, hl, hh),
    )

front : Announcement → List ℕ
front d = d.head ∷ length d.authentication ∷ d.h0 ∷ d.h1 ∷ (d.source ++ d.authentication)

-- The bytes of a datagram in the buffer, from its payload on.
behind-front :
    (d : Announcement) (buf : Buffer)
    → IsAnnouncement d
    → length buf ≡ buffer_size
    → drop (8 + length d.authentication) (receive (datagram d) buf)
      ≡ map some d.payload ++ some 0 ∷ drop (suc (length (datagram d))) buf
unfolding front
behind-front d buf is sized =
    let rest : Buffer = some 0 ∷ drop (suc (length (datagram d))) buf in
    let at : 8 + length d.authentication ≡ length (front d) =
      omega (arith, length-append d.source d.authentication, is.address) in
    let whole : datagram d ≡ front d ++ d.payload =
      ap (λ l. d.head ∷ length d.authentication ∷ d.h0 ∷ d.h1 ∷ l)
        (sym (append_assoc d.source d.authentication d.payload)) in
    let all : receive (datagram d) buf ≡ map some (front d ++ d.payload) ++ rest =
      receive-drop (datagram d) buf (omega (arith, is.fits, sized))
      ∙ ap (λ l. map some l ++ rest) whole in
    (λ i. drop (at i) (all i)) ∙ drop-map (front d) d.payload rest

-- Whatever datagrams arrive that fit the buffer, hold as many bytes of authentication as their second
-- byte says, and have a payload that is not "application/sdp" alone: the loop prints one text for
-- each that it does not reject for its version or a flag, in the order of their arrival. It is the
-- text of the payload behind the type application/sdp, where the payload begins with this type and
-- a 0, and else the text of the whole payload, with nothing of the header, of the authentication, or
-- of what an earlier datagram left in the buffer.
pub loop-texts :
    (ds : List Announcement) (buf : Buffer)
    → AllAnnouncements ds
    → length buf ≡ buffer_size
    → loop (arrivals ds) buf ≡ done (texts ds)
unfolding loop
loop-texts [] buf h sized = refl
loop-texts (d ∷ ds) buf h sized =
    let is = h.0 in
    let header =
      header-flags d.head (length d.authentication) d.h0 d.h1 is.head is.short is.low is.high in
    let filled = receive (datagram d) buf in
    let rest : loop (arrivals ds) filled ≡ done (texts ds) =
      loop-texts ds filled h.1 (receive-length (datagram d) buf ∙ sized) in
    let word : ℕ = d.head * 2 ^ 24 + length d.authentication * 2 ^ 16 + d.h0 * 2 ^ 8 + d.h1 in
    let head : sap_header filled ≡ done word =
      ap sap_header (receive-drop (datagram d) buf (omega (arith, is.fits, sized))) in
    let shown : show_data (drop (8 + sap_authlen word) filled) ≡ done (described d.payload) =
      ap (λ n. show_data (drop (8 + n) filled)) header.1
      ∙ (ap show_data (behind-front d buf is sized)
          ∙ show_data-described d.payload (drop (suc (length (datagram d))) buf) is.described) in
    elim (Bool-cases (is_rejected d.head)) [
      | inl bad ↦ rw (head, header.0, bad) rest
      | inr good ↦ rw (head, header.0, good, shown, rest) refl
    ]
