-- ===== src/RawUdp/Verifies.antt =====
-- A datagram of `udp_write` as its receiver sees it.
use network_program.Prelude.{
  ℕ, ◌+◌, ◌*◌, ◌/◌, ◌%◌, ◌^◌, ◌≤◌, ◌<◌, ◌≡◌, refl, ap, sym, ◌∙◌, List, [], ◌∷◌, ◌++◌, length, take,
  drop, false, Bool-cases, inl, inr, ◌==◌, arith,
}
use network_program.Sys.{wrote, done}
use network_program.Checksum.{add_words, finish, in_cksum}
use network_program.Checksum.Verify.{
  total, Bytes, Even, total_bound, in_cksum-total, with_word, total-with_word, in_cksum_verifies,
  finish-lt,
}
use network_program.Wrap.Retry.{sent_whole}
use network_program.RawUdp.{Place, stored, ui_front, ui_sum, ip_front, udp_write}

-- All ones in place of a checksum of 0.
finish_ones : (s : ℕ) → s + 65535 < 2 ^ 32 → finish s ≡ 0 → finish (s + 65535) ≡ 0
unfolding finish
finish_ones s h e = omega (arith, e)

-- A packet with all ones where its checksum is 0.
ones_verify :
    (front back : List ℕ)
    → Even front
    → Bytes (with_word front 0 back)
    → length (with_word front 0 back) ≤ 65535
    → in_cksum (with_word front 0 back) ≡ 0
    → in_cksum (with_word front 65535 back) ≡ 0
ones_verify front back e b small zero_sum =
    let s = total (with_word front 0 back) in
    let bound : 2 * s ≤ 65535 * (length (with_word front 0 back) + 1) =
      total_bound (with_word front 0 back) b in
    let sum : in_cksum (with_word front 0 back) ≡ finish s =
      in_cksum-total (with_word front 0 back) (omega arith) in
    let plain : s ≡ total front + total back + 0 = total-with_word front 0 back e (omega arith) in
    let filled : total (with_word front 65535 back) ≡ s + 65535 =
      omega (arith, total-with_word front 65535 back e (omega arith), plain) in
    in_cksum-total (with_word front 65535 back) (omega (arith, filled))
    ∙ rw filled (finish_ones s (omega arith) (sym sum ∙ zero_sum))

-- The field is never 0, which would mean that there is no checksum, and it makes the words of the pseudo
-- header, the header and the data add up.
ui_sum-verifies :
    (front body : List ℕ)
    → Even front
    → Bytes (with_word front 0 body)
    → length (with_word front 0 body) ≤ 65535
    → ((ui_sum false front body == 0) ≡ false)
      × (in_cksum (with_word front (ui_sum false front body) body) ≡ 0)
unfolding ui_sum
ui_sum-verifies front body e b small = elim (Bool-cases (in_cksum (front ++ 0 ∷ 0 ∷ body) == 0)) [
  | inl none ↦ rw none (refl, ones_verify front body e b small (ground (arith, none)))
  | inr some_sum ↦ rw some_sum (some_sum, in_cksum_verifies front body e b small)
]

in_cksum-same :
    (xs ys : List ℕ)
    → total xs ≡ total ys
    → Bytes xs
    → length xs ≤ 65535
    → in_cksum ys ≡ in_cksum xs
in_cksum-same xs ys same b small =
    let bound = total_bound xs b in
    in_cksum-total ys (omega (arith, bound, same))
    ∙ (ap finish (sym same) ∙ sym (in_cksum-total xs (omega (arith, bound))))

pub record IsPlace (p : Place) : Type 0 where
  pub a0 : p.a0 < 256
  pub a1 : p.a1 < 256
  pub a2 : p.a2 < 256
  pub a3 : p.a3 < 256
  pub p0 : p.p0 < 256
  pub p1 : p.p1 < 256

-- What RFC 768 sums up: both addresses, a zero byte, the protocol, the length of the datagram, and
-- the datagram, which starts behind the 20 bytes of the IP header.
abbrev pub pseudo : List ℕ → List ℕ
pseudo p = take 8 (drop 12 p) ++ 0 ∷ 17 ∷ (take 2 (drop 24 p) ++ drop 20 p)

Bytes-front :
    (local dest : Place) (n w : ℕ) (body : List ℕ)
    → IsPlace local
    → IsPlace dest
    → Bytes body
    → Bytes (with_word (ui_front local dest n) w body)
Bytes-front local dest n w body l d b = (
  omega arith,
  (
    omega arith,
    (
      omega arith,
      (
        omega arith,
        (
          omega arith,
          (
            omega arith,
            (
              omega arith,
              (
                omega arith,
                (
                  omega arith,
                  (
                    omega arith,
                    (
                      omega arith,
                      (
                        omega arith,
                        (
                          l.a0,
                          (
                            l.a1,
                            (
                              l.a2,
                              (
                                l.a3,
                                (
                                  d.a0,
                                  (
                                    d.a1,
                                    (
                                      d.a2,
                                      (
                                        d.a3,
                                        (
                                          l.p0,
                                          (
                                            l.p1,
                                            (
                                              d.p0,
                                              (
                                                d.p1,
                                                (
                                                  omega arith,
                                                  (omega arith, (omega arith, (omega arith, b))),
                                                ),
                                              ),
                                            ),
                                          ),
                                        ),
                                      ),
                                    ),
                                  ),
                                ),
                              ),
                            ),
                          ),
                        ),
                      ),
                    ),
                  ),
                ),
              ),
            ),
          ),
        ),
      ),
    ),
  ),
)

-- A datagram that is sent with a checksum: it has the body behind its headers, its checksum is not the
-- 0 that stands for none, and the sum of RFC 768 over it is right.
pub record IsDatagram (body p : List ℕ) : Type 0 where
  pub sized : length p ≡ 28 + length body
  pub behind : drop 28 p ≡ body
  pub summed : ¬ (take 2 (drop 26 p) ≡ 0 ∷ 0 ∷ [])
  pub right : in_cksum (pseudo p) ≡ 0

sum-IsDatagram :
    (local dest : Place) (body : List ℕ) (sum : ℕ)
    → IsPlace local
    → IsPlace dest
    → Bytes body
    → 28 + length body ≤ 65535
    → sum < 2 ^ 16
    → (sum == 0) ≡ false
    → in_cksum (with_word (ui_front local dest (length body)) sum body) ≡ 0
    → IsDatagram body (
        ip_front (28 + length body)
        ++ drop 9 (ui_front local dest (length body) ++ stored sum ++ body))
sum-IsDatagram local dest body sum l d b small low some_sum verified = record {
  sized = omega arith;
  behind = refl;
  summed = λ e.
      let low_zero : sum % 256 ≡ 0 = cc e in
      let high_zero : sum / 256 % 256 ≡ 0 = cc e in
      ground (arith, low, some_sum, low_zero, high_zero);
  right =
      let n = length body in
      let whole = with_word (ui_front local dest n) sum body in
      let packet = ip_front (28 + n) ++ drop 9 (ui_front local dest n ++ stored sum ++ body) in
      let same : total whole ≡ total (pseudo packet) = omega arith in
      in_cksum-same whole (pseudo packet) same (Bytes-front local dest n sum body l d b)
        (omega (arith, small))
      ∙ verified;
}

in_cksum-lt : (bs : List ℕ) → in_cksum bs < 2 ^ 16
unfolding in_cksum
in_cksum-lt bs = finish-lt (add_words 0 bs)

ui_sum-lt : (front body : List ℕ) → ui_sum false front body < 2 ^ 16
unfolding ui_sum
ui_sum-lt front body = ground (arith, in_cksum-lt (front ++ 0 ∷ 0 ∷ body))

-- With checksums on, the datagram that `udp_write` sends is right by RFC 768 for every receiver.
pub udp_write-IsDatagram :
    (local dest : Place) (body : List ℕ)
    → IsPlace local
    → IsPlace dest
    → Bytes body
    → 28 + length body ≤ 65535
    → (p : List ℕ) × (udp_write local dest false body (wrote (28 + length body)) ≡ done p)
      × IsDatagram body p
unfolding udp_write
udp_write-IsDatagram local dest body l d b small =
    let n = length body in
    let front = ui_front local dest n in
    let sum = ui_sum false front body in
    let verified =
      ui_sum-verifies front body tt (Bytes-front local dest n 0 body l d b)
        (omega (arith, small)) in
    (
      ip_front (28 + n) ++ drop 9 (front ++ stored sum ++ body),
      rw (sent_whole (28 + n) (omega (arith, small))) refl,
      sum-IsDatagram local dest body sum l d b small (ui_sum-lt front body) verified.0 verified.1,
    )
