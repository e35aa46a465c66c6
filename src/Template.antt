-- ===== src/Template.antt =====
-- swale/src/template.rs: the substitution language of a parameter string.
pub mod Parse
pub mod Render
pub mod Examples
use swale.Base.{
  ℕ, zero, suc, ◌+◌, Bool, true, false, ◌&&◌, ◌||◌, Option, none, some, List, [], ◌∷◌, Text, length,
  all, any, leb, ◌==◌, if◌then◌else◌, codes, text_eq, strip_prefix, is_ascii_alphabetic,
  is_ascii_alphanumeric,
}
use swale.Graph.{is_empty}

pub data RunField : Type 0 where
  id summary : RunField

pub data Segment : Type 0 where
  literal : Text → Segment
  partition : Segment
  run : RunField → Segment
  upstream : Text → List Text → Segment
  env : Text → Segment
  item : List Text → Segment

pub data TemplateError : Type 0 where
  unclosed : ℕ → TemplateError
  unknown_reference : Text → TemplateError

pub data Parsed {ℓ} (A : Type ℓ) : Type ℓ where
  ok : A → Parsed A
  err : TemplateError → Parsed A

infixl 10 ◌>>=◌
abbrev pub ◌>>=◌ {ℓ κ} : {A : Type ℓ} {B : Type κ} → Parsed A → (A → Parsed B) → Parsed B
ok a >>= f = f a
err e >>= f = err e

-- `Template`
abbrev pub Template : Type 0
Template = List Segment

abbrev push_before : ℕ → Option (Text × Text) → Option (Text × Text)
push_before b none = none
push_before b (some (l, r)) = some (b ∷ l, r)

-- `str::find` of the byte `c` twice, with the slices before and after it
unfoldable pub split_pair : ℕ → Text → Option (Text × Text)
split_pair c [] = none
split_pair c (a ∷ []) = none
split_pair c (a ∷ b ∷ t) =
    let rest = push_before a (split_pair c (b ∷ t)) in
    if a == c && b == c then some ([], t) else rest

-- one code point of the class White_Space, in UTF-8, at the start of the text
white_space : Text → Option Text
white_space (a ∷ b ∷ c ∷ t) =
    if leb 9 a && leb a 13 || a == 32
    then some (b ∷ c ∷ t)
    else if a == 0xc2 && (b == 0x85 || b == 0xa0)
    then some (c ∷ t)
    else if a == 0xe1 && b == 0x9a && c == 0x80
    then some t
    else if a == 0xe2
        && b == 0x80
        && (leb 0x80 c && leb c 0x8a || c == 0xa8 || c == 0xa9 || c == 0xaf)
    then some t
    else if a == 0xe2 && b == 0x81 && c == 0x9f
    then some t
    else if a == 0xe3 && b == 0x80 && c == 0x80
    then some t
    else none
white_space (a ∷ b ∷ []) =
    if leb 9 a && leb a 13 || a == 32
    then some (b ∷ [])
    else if a == 0xc2 && (b == 0x85 || b == 0xa0)
    then some []
    else none
white_space (a ∷ []) = if leb 9 a && leb a 13 || a == 32 then some [] else none
white_space [] = none

-- `trim_start`; the fuel is the length of the text
trim_start : ℕ → Text → Text
trim_start zero t = t
trim_start (suc fuel) t = elim (white_space t) [ none ↦ t | some r ↦ trim_start fuel r ]

-- a text of white space alone
is_blank : Text → Bool
is_blank t = is_empty (trim_start (length t) t)

-- `trim_end`: the text up to the first byte after which all is white space
trim_end : Text → Text
unfolding is_blank trim_start white_space
trim_end [] = []
trim_end (b ∷ t) = let rest = trim_end t in if is_blank (b ∷ t) then [] else b ∷ rest

-- `str::trim`
unfoldable pub trim : Text → Text
unfolding trim_start trim_end white_space
trim t = trim_end (trim_start (length t) t)

abbrev push_head : ℕ → List Text → List Text
push_head b [] = (b ∷ []) ∷ []
push_head b (p ∷ ps) = (b ∷ p) ∷ ps

-- `str::split` at one byte
unfoldable pub split : ℕ → Text → List Text
split c [] = [] ∷ []
split c (b ∷ t) = let rest = split c t in if b == c then [] ∷ rest else push_head b rest

env_name_byte : ℕ → Bool
env_name_byte b = is_ascii_alphanumeric b || b == b'_'

unfoldable pub is_env_name : Text → Bool
unfolding env_name_byte
is_env_name [] = false
is_env_name (b ∷ t) = (is_ascii_alphabetic b || b == b'_') && all env_name_byte t

item_reference : Text → Text → Parsed Segment
item_reference text rest =
    let path = split b'.' rest in
    if any is_empty path then err (unknown_reference text) else ok (item path)

run_reference : Text → Text → Parsed Segment
run_reference text field =
    if text_eq field (codes "id")
    then ok (run id)
    else if text_eq field (codes "summary")
    then ok (run summary)
    else err (unknown_reference text)

env_reference : Text → Text → Parsed Segment
env_reference text name = if is_env_name name then ok (env name) else err (unknown_reference text)

upstream_reference : Text → List Text → Parsed Segment
upstream_reference text [] = err (unknown_reference text)
upstream_reference text (node ∷ path) =
    if is_empty node || any is_empty path
    then err (unknown_reference text)
    else ok (upstream node path)

-- the references with a prefix, in the order in which they are tried
prefixed_reference : Text → Parsed Segment
unfolding item_reference run_reference env_reference upstream_reference
prefixed_reference text = elim (strip_prefix (codes "item.") text) [
  | some rest ↦ item_reference text rest
  | none ↦ elim (strip_prefix (codes "run.") text) [
    | some field ↦ run_reference text field
    | none ↦ elim (strip_prefix (codes "env.") text) [
      | some name ↦ env_reference text name
      | none ↦ elim (strip_prefix (codes "upstream.") text) [
        | none ↦ err (unknown_reference text)
        | some rest ↦ upstream_reference text (split b'.' rest)
      ]
    ]
  ]
]

unfoldable pub reference : Text → Parsed Segment
unfolding prefixed_reference
reference text =
    if text_eq text (codes "partition")
    then ok partition
    else if text_eq text (codes "item")
    then ok (item [])
    else prefixed_reference text

abbrev pub literal_before : Text → List Segment → List Segment
literal_before [] segments = segments
literal_before (b ∷ t) segments = literal (b ∷ t) ∷ segments

-- the `while` loop of `Template::parse` at a byte offset; the fuel bounds the references
unfoldable pub parse_from : ℕ → Text → ℕ → Parsed Template
parse_from zero rest offset = ok (literal_before rest [])
parse_from (suc fuel) rest offset = elim (split_pair b'{' rest) [
  | none ↦ ok (literal_before rest [])
  | some (before, after_open) ↦ elim (split_pair b'}' after_open) [
    | none ↦ err (unclosed (offset + length before))
    | some (inside, rest') ↦ do
      segment ← reference (trim inside)
      segments ← parse_from fuel rest' (offset + (length before + 2 + length inside + 2))
      ok (literal_before before (segment ∷ segments))
  ]
]

-- `Template::parse`: a reference takes at least four bytes, so the length is enough fuel
unfoldable pub parse : Text → Parsed Template
unfolding parse_from
parse source = parse_from (length source) source 0

unfoldable pub upstream_of : Segment → Option Text
upstream_of (upstream node path) = some node
upstream_of _ = none

-- `Template::upstream_nodes`
unfoldable pub upstream_nodes : Template → List Text
unfolding upstream_of
upstream_nodes [] = []
upstream_nodes (s ∷ ss) = elim (upstream_of s) [
  | none ↦ upstream_nodes ss
  | some n ↦ n ∷ upstream_nodes ss
]

is_item : Segment → Bool
is_item (item path) = true
is_item _ = false

-- `Template::refers_to_item`
unfoldable pub refers_to_item : Template → Bool
unfolding is_item
refers_to_item segments = any is_item segments
