-- ===== src/Operator/Texts.antt =====
-- The texts of the operators' errors: `tail` of swale/src/operator/mod.rs, and the `Debug` of a
-- `Duration`, which is its nanoseconds.
use swale.Base.{
  ℕ, zero, suc, ◌-◌, ◌/◌, ◌%◌, Bool, true, not, ◌&&◌, ◌||◌, none, some, [], ◌∷◌, ◌++◌, Text, codes,
  show, pad, leb, ◌==◌, get_elem?, length, from_utf8_lossy, if◌then◌else◌,
}

-- `str::is_char_boundary` within the text
unfoldable pub is_boundary : Text → ℕ → Bool
is_boundary t i = elim (get_elem? t i) [ none ↦ true | some b ↦ not (leb 0x80 b && leb b 0xbf) ]

-- `str::floor_char_boundary`, which goes back by three bytes at most
unfoldable pub floor_from : ℕ → Text → ℕ → ℕ
unfolding is_boundary
floor_from zero t i = i
floor_from (suc fuel) t i =
    let lower = floor_from fuel t (i - 1) in if is_boundary t i then i else lower

unfoldable pub drop : ℕ → Text → Text
drop zero t = t
drop (suc n) [] = []
drop (suc n) (_ ∷ t) = drop n t

-- `tail`
unfoldable pub tail : Text → Text
unfolding floor_from drop
tail bytes = let text = from_utf8_lossy bytes in drop (floor_from 3 text (length text - 512)) text

-- the digits of a fraction without the zeros at their end
trim_zeros : Text → Text
trim_zeros [] = []
trim_zeros (b ∷ t) = elim (trim_zeros t) [
  | [] ↦ if b == b'0' then [] else b ∷ []
  | c ∷ rest ↦ b ∷ c ∷ rest
]

decimal : ℕ → ℕ → ℕ → Text → Text
unfolding trim_zeros
decimal whole fraction width unit =
    if fraction == 0
    then show whole ++ unit
    else show whole ++ (b'.' ∷ (trim_zeros (pad width fraction) ++ unit))

-- `Debug` of a `Duration`
unfoldable pub debug_duration : ℕ → Text
unfolding decimal
debug_duration nanos =
    if leb 1000000000 nanos
    then decimal (nanos / 1000000000) (nanos % 1000000000) 9 (codes "s")
    else if leb 1000000 nanos
    then decimal (nanos / 1000000) (nanos % 1000000) 6 (codes "ms")
    else if leb 1000 nanos
    then decimal (nanos / 1000) (nanos % 1000) 3 (0xc2 ∷ 0xb5 ∷ b's' ∷ [])
    else decimal nanos 0 0 (codes "ns")

-- `slice::trim_ascii`
abbrev is_ascii_whitespace : ℕ → Bool
is_ascii_whitespace b = b == 0x20 || b == 0x09 || b == 0x0a || b == 0x0c || b == 0x0d

trim_ascii_start : Text → Text
trim_ascii_start [] = []
trim_ascii_start (b ∷ t) =
    let rest = trim_ascii_start t in if is_ascii_whitespace b then rest else b ∷ t

trim_ascii_end : Text → Text
trim_ascii_end [] = []
trim_ascii_end (b ∷ t) = elim (trim_ascii_end t) [
  | [] ↦ if is_ascii_whitespace b then [] else b ∷ []
  | c ∷ rest ↦ b ∷ c ∷ rest
]

unfoldable pub trim_ascii : Text → Text
unfolding trim_ascii_start trim_ascii_end
trim_ascii t = trim_ascii_end (trim_ascii_start t)
