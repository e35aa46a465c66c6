-- ===== src/Dispatch/Members.antt =====
-- `member_outputs` of swale/src/dispatch.rs: the outputs of the members of a group in item order.
pub mod Order
use swale.Base.{
  ℕ, Option, none, some, List, [], ◌∷◌, ◌++◌, Text, Bool, true, false, not, codes, show, leb,
  length, keep, map, parse_uint, if◌then◌else◌,
}
use swale.Base.Results.{Result, ok, err, ◌>>=◌}
use swale.Data.{Json, JsonItems}
use swale.Dispatch.{MemberResult}
use swale.Hook.{TerminalStatus, output_value}
use swale.Template.Render.{usize_max}

pub data NoOutputs : Type 0 where
  failed : Text → NoOutputs
  result_removed : NoOutputs

-- the position of a member, `usize::MAX` for a key that is none
abbrev pub or_max : Option ℕ → ℕ
or_max none = usize_max
or_max (some n) = n

unfoldable pub position : MemberResult → ℕ
position result = or_max (parse_uint usize_max result.key)

abbrev pub Positioned : Type 0
Positioned = ℕ × MemberResult

-- `sort_by_key`, which is stable
unfoldable pub insert_sorted : Positioned → List Positioned → List Positioned
insert_sorted (p, r) [] = (p, r) ∷ []
insert_sorted (p, r) ((q, s) ∷ members) =
    let rest = insert_sorted (p, r) members in
    if leb p q then (p, r) ∷ (q, s) ∷ members else (q, s) ∷ rest

unfoldable pub sort : List Positioned → List Positioned
unfolding insert_sorted
sort [] = []
sort (m ∷ members) = insert_sorted m (sort members)

unfoldable pub positioned : List MemberResult → List Positioned
unfolding position
positioned [] = []
positioned (r ∷ results) = (position r, r) ∷ positioned results

is_succeeded : TerminalStatus → Bool
is_succeeded TerminalStatus.succeeded = true
is_succeeded TerminalStatus.failed = false
is_succeeded TerminalStatus.cancelled = false

unfoldable pub has_not_succeeded : Positioned → Bool
unfolding is_succeeded
has_not_succeeded (p, r) = not (is_succeeded r.termination.status)

-- the error of the first member that did not succeed
member_error : MemberResult → Text
member_error r = elim r.termination.error [
  | some error ↦ error
  | none ↦ elim r.termination.status [
    | TerminalStatus.cancelled ↦ codes "cancelled"
    | TerminalStatus.failed ↦ codes "failed"
    | TerminalStatus.succeeded ↦ codes "failed"
  ]
]

failure_text : ℕ → ℕ → MemberResult → Text
unfolding member_error
failure_text count total first =
    show count
    ++ (codes " of "
        ++ (show total
            ++ (codes " members did not succeed, and member "
                ++ (first.key ++ (codes " is the first: " ++ member_error first)))))

module _ (from_slice : Text → Result Text Json) where
  bytes_value : Option Text → Json
  bytes_value none = Json.null
  bytes_value (some bytes) = output_value from_slice bytes

  -- the outputs of members that all succeeded
  unfoldable pub outputs : List Positioned → Result NoOutputs JsonItems
  unfolding bytes_value
  outputs [] = ok JsonItems.nil
  outputs ((p, r) ∷ members) = elim r.outcome [
    | none ↦ err NoOutputs.result_removed
    | some bytes ↦ do rest ← outputs members; ok (JsonItems.cons (bytes_value bytes) rest)
  ]

  -- the members that did not succeed, or the outputs
  unfoldable pub outputs_of_sorted : ℕ → List Positioned → Result NoOutputs Json
  unfolding failure_text outputs has_not_succeeded
  outputs_of_sorted total members = elim (keep has_not_succeeded members) [
    | (p, first) ∷ rest ↦
        err (NoOutputs.failed (failure_text (length ((p, first) ∷ rest)) total first))
    | [] ↦ do items ← outputs members; ok (Json.array items)
  ]

  -- `member_outputs`
  unfoldable pub member_outputs : List MemberResult → Result NoOutputs Json
  unfolding outputs_of_sorted sort positioned
  member_outputs results = outputs_of_sorted (length results) (sort (positioned results))
