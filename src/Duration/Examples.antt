-- ===== src/Duration/Examples.antt =====
-- Durations of the tests of swale/src/duration.rs.
use mathlib.Core.List.Memᴰ
use swale.Base.{
  ℕ, ◌*◌, ◌≤◌, ◌≡◌, ◌≢◌, ◌++◌, refl, true, none, some, [], Text, all, codes, text_eq, show,
  read_from, is_ascii_digit, parse_uint, arith,
}
use swale.Duration.{u64_max, unit_seconds, parse, split_unit, parse_parts, checked_mul}
use swale.Duration.Parse.{parse-show, parse_sound}

hours : unit_seconds (codes "h") ≡ some 3600
unfolding unit_seconds text_eq
hours = refl

six_hours : parse (codes "6h") ≡ some 21600
unfolding parse split_unit parse_parts parse_uint unit_seconds text_eq checked_mul
six_hours = refl

-- a count without a unit, and a product above `u64::MAX`
no_unit : parse (codes "10") ≡ none
unfolding parse split_unit parse_parts parse_uint unit_seconds text_eq checked_mul
no_unit = refl

too_long : parse (codes "18446744073709551615d") ≡ none
unfolding parse split_unit parse_parts parse_uint unit_seconds text_eq checked_mul
too_long = refl

parse-show_example : parse (show 6 ++ codes "h") ≡ some (6 * 3600)
parse-show_example =
    parse-show 6 3600 (codes "h") (Memᴰ.tail (Memᴰ.tail (Memᴰ.head refl))) (omega arith)

parse_sound_example :
    (d : Text) × (u : Text) × (k : ℕ) × (codes "6h" ≡ d ++ u)
    × (d ≢ [])
    × (all is_ascii_digit d ≡ true)
    × (unit_seconds u ≡ some k)
    × (21600 ≡ read_from 0 d * k)
    × (21600 ≤ u64_max)
parse_sound_example = parse_sound (codes "6h") 21600 six_hours
