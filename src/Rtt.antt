-- ===== src/Rtt.antt =====
-- rtt.cpp and unprtt.h: the estimate of the round-trip time, after Jacobson.
-- Floating-point arithmetic is no code of the repository: it is a parameter, of which the
-- theorems use that the bounds compare as they should.
pub mod Request
pub mod Bounds
pub mod Answer
mod Tests
use network_program.Prelude.{
  ℕ, suc, ◌+◌, ◌-◌, ◌*◌, ◌/◌, ◌%◌, ◌^◌, Bool, true, false, ltb, if◌then◌else◌,
}
use network_program.Prelude.Int.{ℤ, pos, negsuc}

-- `double` numbers, those of which are `float` that `to_float` keeps.
pub record Floats (F : Type 0) : Type 0 where
  pub of_nat : ℕ → F
  pub three_quarters : F
  pub half : F
  pub add : F → F → F
  pub sub : F → F → F
  pub mul : F → F → F
  pub div : F → F → F
  pub neg : F → F
  pub lt : F → F → Bool
  pub to_float : F → F
  pub to_int : F → ℤ

-- `RTT_RXTMIN`, `RTT_RXTMAX` and `RTT_MAXNREXMT`.
abbrev pub rxt_min : ℕ
rxt_min = 2

abbrev pub rxt_max : ℕ
rxt_max = 60

abbrev pub max_nrexmt : ℕ
max_nrexmt = 3

-- What `Gettimeofday` gives.
pub record Clock : Type 0 where
  pub sec : ℕ
  pub usec : ℕ

pub record RttInfo (F : Type 0) : Type 0 where
  pub rtt : F
  pub srtt : F
  pub rttvar : F
  pub rto : F
  pub nrexmt : ℕ
  pub base : ℕ

unfoldable pub rtt_rtocalc : {F : Type 0} → Floats F → F → F → F
rtt_rtocalc o srtt rttvar = o.add srtt (o.mul (o.of_nat 4) rttvar)

-- The argument is converted to `float`, the bounds are `float` numbers.
unfoldable pub rtt_minmax : {F : Type 0} → Floats F → F → F
rtt_minmax o x =
    let rto = o.to_float x in
    if o.lt rto (o.of_nat rxt_min)
    then o.of_nat rxt_min
    else (if o.lt (o.of_nat rxt_max) rto then o.of_nat rxt_max else rto)

-- The counter `rtt_nrexmt` is left as it was.
unfoldable pub rtt_init : {F : Type 0} → Floats F → Clock → RttInfo F → RttInfo F
unfolding rtt_minmax rtt_rtocalc
rtt_init o tv r = record r {
  base = tv.sec % 2 ^ 32;
  rtt = o.of_nat 0;
  srtt = o.of_nat 0;
  rttvar = o.three_quarters;
  rto = rtt_minmax o (rtt_rtocalc o (o.of_nat 0) o.three_quarters);
}

-- Milliseconds since `rtt_init`, with 32 bits.
unfoldable pub rtt_ts : {F : Type 0} → RttInfo F → Clock → ℕ
rtt_ts r tv = ((tv.sec + 2 ^ 32 - r.base) * 1000 + tv.usec / 1000) % 2 ^ 32

unfoldable pub rtt_newpack : {F : Type 0} → RttInfo F → RttInfo F
rtt_newpack r = record r { nrexmt = 0 }

unfoldable pub rtt_start : {F : Type 0} → Floats F → RttInfo F → ℤ
rtt_start o r = o.to_int (o.add r.rto o.half)

abbrev absolute : {F : Type 0} → Floats F → F → F
absolute o d = if o.lt d (o.of_nat 0) then o.neg d else d

unfoldable pub rtt_stop : {F : Type 0} → Floats F → ℕ → RttInfo F → RttInfo F
unfolding rtt_minmax rtt_rtocalc
rtt_stop o ms r =
    let measured = o.to_float (o.div (o.of_nat ms) (o.of_nat 1000)) in
    let delta = o.sub measured r.srtt in
    let srtt = o.to_float (o.add r.srtt (o.div delta (o.of_nat 8))) in
    let change = o.div (o.sub (absolute o delta) r.rttvar) (o.of_nat 4) in
    let rttvar = o.to_float (o.add r.rttvar change) in
    record r {
      rtt = measured;
      srtt = srtt;
      rttvar = rttvar;
      rto = rtt_minmax o (rtt_rtocalc o srtt rttvar);
    }

-- The new state, and -1 where it is time to give up.
unfoldable pub rtt_timeout : {F : Type 0} → Floats F → RttInfo F → RttInfo F × ℤ
rtt_timeout o r = (
  record r { rto = o.to_float (o.mul r.rto (o.of_nat 2)); nrexmt = r.nrexmt + 1 },
  if ltb max_nrexmt (r.nrexmt + 1) then negsuc 0 else pos 0,
)
