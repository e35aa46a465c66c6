-- ===== src/Base/Utf8.antt =====
-- `str::from_utf8`: whether bytes are well-formed UTF-8, and `String::from_utf8_lossy`.
use Prim.Native.Nat.{ℕ, zero, suc, ◌-◌}
use mathlib.Core.Path.{◌≡◌, refl}
use mathlib.Core.Bool.{Bool, true, false, not, ◌&&◌}
use mathlib.Core.List.{[], ◌∷◌, ◌++◌}
use native.Mathlib.Omega.{arith}
use swale.Base.Tests.{ltb, leb, ◌==◌, if◌then◌else◌}
use swale.Base.Lists.{all}
use swale.Base.Texts.{Text}

-- how many bytes follow the first byte of a sequence, and the range of the next one
pub record Lead : Type 0 where
  pub valid : Bool
  pub more : ℕ
  pub low : ℕ
  pub high : ℕ

abbrev lead_of : ℕ → ℕ → ℕ → Lead
lead_of more low high = record { valid = true; more = more; low = low; high = high }

unfoldable pub lead : ℕ → Lead
lead b =
    if ltb b 0x80
    then lead_of 0 0 0
    else if leb 0xc2 b && leb b 0xdf
    then lead_of 1 0x80 0xbf
    else if b == 0xe0
    then lead_of 2 0xa0 0xbf
    else if b == 0xed
    then lead_of 2 0x80 0x9f
    else if leb 0xe1 b && leb b 0xef
    then lead_of 2 0x80 0xbf
    else if b == 0xf0
    then lead_of 3 0x90 0xbf
    else if leb 0xf1 b && leb b 0xf3
    then lead_of 3 0x80 0xbf
    else if b == 0xf4
    then lead_of 3 0x80 0x8f
    else record { valid = false; more = 0; low = 0; high = 0 }

utf8_from : ℕ → ℕ → ℕ → Text → Bool
unfolding lead
utf8_from zero low high [] = true
utf8_from (suc n) low high [] = false
utf8_from zero low high (b ∷ t) = let l = lead b in l.valid && utf8_from l.more l.low l.high t
utf8_from (suc n) low high (b ∷ t) = leb low b && leb b high && utf8_from n 0x80 0xbf t

unfoldable pub is_utf8 : Text → Bool
unfolding utf8_from
is_utf8 t = utf8_from 0 0 0 t

abbrev pub is_ascii : ℕ → Bool
is_ascii b = ltb b 0x80

ascii_from : (low high : ℕ) (t : Text) → all is_ascii t ≡ true → utf8_from 0 low high t ≡ true
unfolding utf8_from lead
ascii_from low high [] h = refl
ascii_from low high (b ∷ t) h = ground (arith, ascii_from 0 0 t)

-- ASCII text is UTF-8.
pub is_utf8-ascii : (t : Text) → all is_ascii t ≡ true → is_utf8 t ≡ true
unfolding is_utf8
is_utf8-ascii t h = ascii_from 0 0 t h

-- U+FFFD
abbrev pub replacement : Text
replacement = 0xef ∷ 0xbf ∷ 0xbd ∷ []

-- a decoder within a sequence: the bytes that are missing, and those that are read
pub record Decoder : Type 0 where
  pub missing : ℕ
  pub low : ℕ
  pub high : ℕ
  pub pending : Text

abbrev at_start : Decoder
at_start = record { missing = 0; low = 0; high = 0; pending = [] }

-- a byte at the start of a sequence
abbrev first_byte : ℕ → Lead → Text × Decoder
first_byte b l =
    if not l.valid
    then (replacement, at_start)
    else if l.more == 0
    then (b ∷ [], at_start)
    else ([], record { missing = l.more; low = l.low; high = l.high; pending = b ∷ [] })

-- a byte: what it adds to the text; a sequence that it breaks off is one U+FFFD
feed : Decoder → ℕ → Text × Decoder
unfolding lead
feed d b =
    let (out, fresh) = first_byte b (lead b) in
    if d.missing == 0
    then (out, fresh)
    else if not (leb d.low b && leb b d.high)
    then (replacement ++ out, fresh)
    else if d.missing == 1
    then (d.pending ++ (b ∷ []), at_start)
    else (
      [],
      record { missing = d.missing - 1; low = 0x80; high = 0xbf; pending = d.pending ++ (b ∷ []) },
    )

lossy_from : Decoder → Text → Text
unfolding feed
lossy_from d [] = if d.missing == 0 then [] else replacement
lossy_from d (b ∷ t) = let (out, next) = feed d b in out ++ lossy_from next t

-- `String::from_utf8_lossy`
unfoldable pub from_utf8_lossy : Text → Text
unfolding lossy_from
from_utf8_lossy t = lossy_from at_start t
