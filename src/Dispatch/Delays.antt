-- ===== src/Dispatch/Delays.antt =====
-- The time between two reads of the status of the members (swale/src/dispatch.rs).
use native.Mathlib.Nat.{mul-le-mul_left, pow-le-pow_right, one-le-pow}
use swale.Base.{
  arith, ◌≡◌, refl, ℕ, suc, ◌*◌, ◌^◌, ◌≤◌, ◌<◌, ◌⊎◌, inl, inr, true, false, leb, Bool-cases,
}
use swale.Dispatch.{Dispatch, saturating_pow, member_poll_delay, next_polls, duration_max, min, max}
use swale.Task.{u32_max}

pow-le_u32 : (polls : ℕ) → leb 32 polls ≡ false → 2 ^ polls ≤ u32_max
pow-le_u32 polls h =
    let le = pow-le-pow_right {n = 2} (omega arith) {i = polls} {j = 31} (ground arith) in
    omega (arith, le)

saturating_pow-above : (polls : ℕ) → leb 32 polls ≡ true → saturating_pow polls ≡ u32_max
unfolding saturating_pow
saturating_pow-above polls h = rw (saturating_pow, h) refl

saturating_pow-below : (polls : ℕ) → leb 32 polls ≡ false → saturating_pow polls ≡ 2 ^ polls
unfolding saturating_pow
saturating_pow-below polls h = rw (saturating_pow, h) refl

saturating_pow-le : (polls : ℕ) → saturating_pow polls ≤ u32_max
saturating_pow-le polls = elim (Bool-cases (leb 32 polls)) [
  | inl a ↦ rw (saturating_pow-above polls a) (omega arith)
  | inr a ↦ rw (saturating_pow-below polls a) (pow-le_u32 polls a)
]

saturating_pow_mono : (polls : ℕ) → saturating_pow polls ≤ saturating_pow (suc polls)
saturating_pow_mono polls = elim (Bool-cases (leb 32 (suc polls))) [
  | inl a ↦ rw (saturating_pow-above (suc polls) a) (saturating_pow-le polls)
  | inr a ↦
      rw (saturating_pow-below (suc polls) a, saturating_pow-below polls (ground arith))
        (pow-le-pow_right {n = 2} (omega arith) {i = polls} {j = suc polls} (omega arith))
]

saturating_pow-positive : (polls : ℕ) → 1 ≤ saturating_pow polls
saturating_pow-positive polls = elim (Bool-cases (leb 32 polls)) [
  | inl a ↦ rw (saturating_pow-above polls a) (omega arith)
  | inr a ↦ rw (saturating_pow-below polls a) (one-le-pow polls 2 (omega arith))
]

min_mono : (a b c : ℕ) → a ≤ b → min a c ≤ min b c
min_mono a b c h = ground arith

min-le : (a c : ℕ) → min a c ≤ c
min-le a c = ground arith

le-min : (a b c : ℕ) → a ≤ b → a ≤ c → a ≤ min b c
le-min a b c h k = ground arith

le-max : (a b : ℕ) → a ≤ max b a
le-max a b = ground arith

next_polls-eq : (polls : ℕ) → polls < u32_max → next_polls polls ≡ suc polls
next_polls-eq polls h = omega arith

saturating_pow-suc :
    (polls : ℕ) → polls < 31 → saturating_pow (suc polls) ≡ 2 * saturating_pow polls
saturating_pow-suc polls h =
    rw (saturating_pow-below (suc polls) (ground arith), saturating_pow-below polls (ground arith))
      (omega arith)

-- The cap of a product that is doubled.
min-double : (a c d : ℕ) → c ≤ d → min (min (2 * a) d) c ≡ min (2 * min (min a d) c) c
min-double a c d h = ground arith

-- A first delay is the poll interval. While the count of reads does not wrap, each delay is the
-- poll interval at least, it is not longer than the longer of the two intervals, and the next delay
-- is not shorter; up to the thirty-first read the next delay is twice this one, or that longer
-- interval where that is less. The two intervals are values of a `Duration`.
pub member_poll_delay-bounds :
    {S : Type 0} (dispatch : Dispatch S) (polls : ℕ)
    → dispatch.member_poll_interval ≤ duration_max
    → dispatch.member_poll_max_interval ≤ duration_max
    → polls < u32_max
    → (member_poll_delay dispatch 0 ≡ dispatch.member_poll_interval)
      × (dispatch.member_poll_interval ≤ member_poll_delay dispatch polls)
      × (member_poll_delay dispatch polls
          ≤ max dispatch.member_poll_max_interval dispatch.member_poll_interval)
      × (member_poll_delay dispatch polls ≤ member_poll_delay dispatch (next_polls polls))
      × ((31 ≤ polls)
          ⊎ (member_poll_delay dispatch (next_polls polls)
              ≡ min
                  (2 * member_poll_delay dispatch polls)
                  (max dispatch.member_poll_max_interval dispatch.member_poll_interval)))
unfolding member_poll_delay
member_poll_delay-bounds dispatch polls fits max_fits small =
    let interval = dispatch.member_poll_interval in
    let cap = max dispatch.member_poll_max_interval interval in
    let power = saturating_pow polls in
    let grows =
      mul-le-mul_left {m = power} {n = saturating_pow (suc polls)} interval
        (saturating_pow_mono polls) in
    let above = mul-le-mul_left {m = 1} {n = power} interval (saturating_pow-positive polls) in
    let cap_fits : cap ≤ duration_max = ground arith in
    rw (next_polls-eq polls small) (
      first_delay interval dispatch.member_poll_max_interval fits,
      le-min interval (min (interval * power) duration_max) cap
          (le-min interval (interval * power) duration_max (omega (arith, above)) fits)
          (le-max interval dispatch.member_poll_max_interval),
      min-le (min (interval * power) duration_max) cap,
      min_mono (min (interval * power) duration_max)
          (min (interval * saturating_pow (suc polls)) duration_max) cap
          (min_mono (interval * power) (interval * saturating_pow (suc polls)) duration_max grows),
      doubles interval cap cap_fits (Bool-cases (leb 31 polls)),
    )
  where
    first_delay :
        (i m : ℕ) → i ≤ duration_max → min (min (i * saturating_pow 0) duration_max) (max m i) ≡ i
    first_delay i m h =
        let one : i * saturating_pow 0 ≡ i = rw (saturating_pow-below 0 refl) (omega arith) in
        rw one (ground arith)

    doubles :
        (i c : ℕ)
        → c ≤ duration_max
        → (leb 31 polls ≡ true) ⊎ (leb 31 polls ≡ false)
        → (31 ≤ polls)
          ⊎ (min (min (i * saturating_pow (suc polls)) duration_max) c
              ≡ min (2 * min (min (i * saturating_pow polls) duration_max) c) c)
    doubles i c h (inl late) = inl (ground arith)
    doubles i c h (inr early) =
        let same : i * saturating_pow (suc polls) ≡ 2 * (i * saturating_pow polls) =
          rw (saturating_pow-suc polls (ground arith)) (grind arith) in
        inr (rw same (min-double (i * saturating_pow polls) c duration_max h))
