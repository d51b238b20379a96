-- ===== src/RawUdp/Accepts.antt =====
-- `udp_check` on a packet of `udp_write` whose IP checksum the kernel has filled in, as it does for a raw
-- socket with IP_HDRINCL.
use network_program.Prelude.{
  ℕ, ◌+◌, ◌^◌, ◌<◌, ◌≡◌, refl, List, ◌∷◌, ◌++◌, length, take, drop, Bool, false, ltb, arith,
}
use network_program.Sys.{wrote, done}
use network_program.Checksum.{in_cksum}
use network_program.Checksum.Verify.{with_word, in_cksum_verifies}
use network_program.RawUdp.{Place, ui_front, ui_sum, ip_front, stored, udp_write, udp_check}
use network_program.Wrap.Retry.{sent_whole}
use network_program.RawUdp.Verifies.{IsPlace}

-- The IP header with its checksum, and what is behind it.
abbrev pub filled : List ℕ → List ℕ
filled p =
    let back = take 8 (drop 12 p) in
    with_word (take 10 p) (in_cksum (with_word (take 10 p) 0 back)) back ++ drop 20 p

abbrev sent : Place → Place → ℕ → List ℕ → List ℕ
sent local dest sum body =
    ip_front (28 + length body) ++ drop 9 (ui_front local dest (length body) ++ stored sum ++ body)

header-verifies :
    (local dest : Place) (sum : ℕ) (body : List ℕ)
    → IsPlace local
    → IsPlace dest
    → in_cksum (take 20 (filled (sent local dest sum body))) ≡ 0
header-verifies local dest sum body l d =
    in_cksum_verifies (take 10 (sent local dest sum body))
      (take 8 (drop 12 (sent local dest sum body))) tt
      (
        omega arith,
        (
          omega arith,
          (
            omega arith,
            (
              omega arith,
              (
                omega arith,
                (
                  omega arith,
                  (
                    omega arith,
                    (
                      omega arith,
                      (
                        omega arith,
                        (
                          omega arith,
                          (
                            omega arith,
                            (
                              omega arith,
                              (l.a0, (l.a1, (l.a2, (l.a3, (d.a0, (d.a1, (d.a2, (d.a3, tt)))))))),
                            ),
                          ),
                        ),
                      ),
                    ),
                  ),
                ),
              ),
            ),
          ),
        ),
      )
      (omega arith)

check-sent :
    (local dest : Place) (sum : ℕ) (body : List ℕ)
    → IsPlace local
    → IsPlace dest
    → (q : List ℕ) × (udp_check (filled (sent local dest sum body)) ≡ done q)
      × (drop 12 q ≡ drop 12 (sent local dest sum body))
unfolding udp_check
check-sent local dest sum body l d =
    let q = filled (sent local dest sum body) in
    let long : ltb (length q) 28 ≡ false = ground arith in
    (take 10 q ++ 0 ∷ 0 ∷ drop 12 q, rw (long, header-verifies local dest sum body l d) refl, refl)

-- What `udp_write` sends comes through `udp_check` at the other end, once the kernel has filled in the
-- IP checksum: both addresses and everything behind them are as they were.
pub udp_write-udp_check :
    (local dest : Place) (zerosum : Bool) (body : List ℕ)
    → IsPlace local
    → IsPlace dest
    → 28 + length body < 2 ^ 63
    → (p : List ℕ) × (q : List ℕ) × (udp_write local dest zerosum body (wrote (28 + length body))
        ≡ done p)
      × (udp_check (filled p) ≡ done q)
      × (drop 12 q ≡ drop 12 p)
unfolding udp_write
udp_write-udp_check local dest zerosum body l d small =
    let sum = ui_sum zerosum (ui_front local dest (length body)) body in
    let got = check-sent local dest sum body l d in
    (sent local dest sum body, got.0, rw (sent_whole (28 + length body) small) refl, got.1, got.2)
