-- ===== src/Partition/Examples.antt =====
-- Partition keys of the tests of swale/src/partition.rs.
use swale.Base.{ℕ, ◌≡◌, refl, subst, Option, some, codes, arith, pad, show}
use swale.Graph.{hourly}
use swale.Partition.{Partition, CivilTime, new, of_time, time_key, date_key}
use swale.Partition.Keys.{IsCivil, new-of_time}

abbrev noon : CivilTime
noon = record { year = 2026; month = 9; day = 15; hour = 12 }

abbrev always_noon : ℕ → Option CivilTime
always_noon _ = some noon

abbrev noon_key : Partition
noon_key = record { key = codes "20260915T12" }

noon-IsCivil : IsCivil noon
noon-IsCivil = record { month = omega arith; day = omega arith; hour = omega arith }

always_noon-IsCivil : (t : ℕ) (c : CivilTime) → always_noon t ≡ some c → IsCivil c
always_noon-IsCivil t c e = let same : noon ≡ c = cc in subst IsCivil same noon-IsCivil

at_noon : of_time always_noon hourly 0 ≡ some noon_key
unfolding of_time time_key date_key pad show
at_noon = refl

still_noon : of_time always_noon hourly 1 ≡ some noon_key
unfolding of_time time_key date_key pad show
still_noon = refl

new-of_time_example : new noon_key.key ≡ some noon_key
new-of_time_example = new-of_time always_noon hourly 0 noon_key always_noon-IsCivil at_noon
