-- ===== src/Duration.antt =====
-- swale/src/duration.rs: durations such as `30s`, `5m`, `6h` and `7d`.
pub mod Parse
pub mod Examples
use swale.Base.{
  ℕ, ◌-◌, ◌*◌, ◌^◌, Bool, true, false, not, ◌&&◌, ◌||◌, Option, none, some, List, [], ◌∷◌, Text,
  all, leb, ltb, if◌then◌else◌, codes, text_eq, parse_uint, is_ascii_alphabetic, is_ascii_digit,
}
use swale.Graph.{is_empty}

-- `u64::MAX`
abbrev pub u64_max : ℕ
u64_max = 2 ^ 64 - 1

-- the split of `trim_end_matches(is_ascii_alphabetic)`: the text before the last letters, and them
split_unit : Text → Text × Text
split_unit [] = ([], [])
split_unit (b ∷ t) =
    let (digits, unit) = split_unit t in
    if is_empty digits && is_ascii_alphabetic b then ([], b ∷ unit) else (b ∷ digits, unit)

-- the seconds of a unit
unfoldable pub unit_seconds : Text → Option ℕ
unit_seconds unit =
    if text_eq unit (codes "s")
    then some 1
    else if text_eq unit (codes "m")
    then some 60
    else if text_eq unit (codes "h")
    then some 3600
    else if text_eq unit (codes "d")
    then some 86400
    else none

-- `u64::checked_mul`
unfoldable pub checked_mul : ℕ → ℕ → Option ℕ
checked_mul a b = if leb (a * b) u64_max then some (a * b) else none

parse_parts : Text → Text → Option ℕ
parse_parts digits unit =
    if is_empty digits || not (all is_ascii_digit digits)
    then none
    else elim (parse_uint u64_max digits) [
      | none ↦ none
      | some count ↦ elim (unit_seconds unit) [
        | none ↦ none
        | some seconds ↦ checked_mul count seconds
      ]
    ]

-- `parse`, in seconds; `none` is `InvalidDuration`
unfoldable pub parse : Text → Option ℕ
unfolding split_unit parse_parts
parse text = let (digits, unit) = split_unit text in parse_parts digits unit
