-- ===== src/Exporter/Client/Ticks.antt =====
-- The conversion of latencies.
use mayastor_extensions.Prelude.{
  ℕ, zero, suc, ◌+◌, ◌*◌, ◌/◌, ◌%◌, ◌^◌, ◌≤◌, ◌<◌, ◌≡◌, ap, arith, ◌==◌, false,
}
use native.Mathlib.Nat.{add-mul, div-le_self, mod-add-div', mod-eq_of_lt, mod-lt, one-mul}
use mayastor_extensions.Exporter.Client.{ok, ticks_to_time}

-- A latency below 2^44 ticks is converted to whole microseconds, rounded down and never truncated, if
-- the rate of the ticks is not 0.
pub ticks_to_time-floor :
    (tick tick_rate : ℕ)
    → 0 < tick_rate
    → tick < 2 ^ 44
    → (time : ℕ) × (ticks_to_time tick tick_rate ≡ ok time)
      × (time * tick_rate ≤ tick * 1000000)
      × (tick * 1000000 < (time + 1) * tick_rate)
unfolding ticks_to_time
ticks_to_time-floor tick zero pos small = absurd (omega (arith, pos))
ticks_to_time-floor tick (suc k) pos small =
    let q = tick * 1000000 / suc k in
    let whole = mod-add-div' (tick * 1000000) (suc k) in
    let part = mod-lt (tick * 1000000) pos in
    let low = div-le_self (tick * 1000000) (suc k) in
    let fits : q % 2 ^ 64 ≡ q = mod-eq_of_lt (omega (arith, low, small)) in
    let nonzero : (suc k == 0) ≡ false = ground arith in
    (
      q,
      rw nonzero (ap ok fits),
      omega (arith, whole),
      omega (arith, whole, part, add-mul q 1 (suc k), one-mul (suc k)),
    )
