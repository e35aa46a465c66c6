-- ===== src/Graph/Cycle.antt =====
-- swale/src/graph.rs, `find_cycle`: the depth-first search for a cycle of the edges.
-- A mark array is a list, and the path grows at its end. A visit that finds no cycle pops what it
-- pushed, so the path is an argument and only the marks are returned.
pub mod Marks
pub mod Report
pub mod Scan
pub mod Visits
pub mod Sound
use swale.Base.{
  ℕ, zero, suc, Bool, true, false, Option, none, some, List, [], ◌∷◌, ◌++◌, Text, Map, get,
  get_elem?, length, map, ◌==◌, if◌then◌else◌,
}
use swale.Graph.{NodeSpec}

pub data Mark : Type 0 where
  unvisited active done : Mark

pub data Visit : Type 0 where
  found : List Text → Visit
  marked : List Mark → Visit
  stuck : Visit

-- `marks[i] = mark`
abbrev pub set_mark : List Mark → ℕ → Mark → List Mark
set_mark [] i m = []
set_mark (x ∷ xs) zero m = m ∷ xs
set_mark (x ∷ xs) (suc i) m = x ∷ set_mark xs i m

-- `nodes[p].name`, `none` for the panic on an index out of range
abbrev pub name_at : List NodeSpec → ℕ → Option Text
name_at nodes p = elim (get_elem? nodes p) [ none ↦ none | some n ↦ some n.name ]

abbrev pub names_at : List NodeSpec → List ℕ → Option (List Text)
names_at nodes [] = some []
names_at nodes (p ∷ path) =
    let rest = names_at nodes path in
    elim (name_at nodes p) [
      | none ↦ none
      | some n ↦ elim rest [ none ↦ none | some names ↦ some (n ∷ names) ]
    ]

-- `path[start..]` from the position of `j`, `none` for the panic when `j` is not on the path
unfoldable pub from_position : ℕ → List ℕ → Option (List ℕ)
from_position j [] = none
from_position j (p ∷ path) =
    let rest = from_position j path in if p == j then some (p ∷ path) else rest

module _ (nodes : List NodeSpec) (upstreams : List (List Text)) (index : Map ℕ) where
  unfoldable pub cycle_path : List ℕ → ℕ → Option (List Text)
  cycle_path path j = elim (from_position j path) [
    | none ↦ none
    | some start ↦ elim (names_at nodes start) [
      | none ↦ none
      | some names ↦ elim (name_at nodes j) [
        | none ↦ none
        | some last ↦ some (names ++ (last ∷ []))
      ]
    ]
  ]

  -- the arm of an upstream on the path
  unfoldable pub report : List ℕ → ℕ → Visit
  unfolding cycle_path
  report path j = elim (cycle_path path j) [ none ↦ stuck | some cycle ↦ found cycle ]

  -- the loop over the upstreams of a node, with the visit of a node that it calls
  unfoldable pub scan : (ℕ → List Mark → List ℕ → Visit) → List Text → List Mark → List ℕ → Visit
  unfolding report
  scan visit [] marks path = marked marks
  scan visit (up ∷ ups) marks path = elim (get up index) [
    | none ↦ stuck
    | some j ↦ elim (get_elem? marks j) [
      | none ↦ stuck
      | some active ↦ report path j
      | some unvisited ↦ elim (visit j marks path) [
        | found c ↦ found c
        | stuck ↦ stuck
        | marked marks' ↦ scan visit ups marks' path
      ]
      | some done ↦ scan visit ups marks path
    ]
  ]

  unfoldable pub finish : ℕ → Visit → Visit
  finish i (found c) = found c
  finish i stuck = stuck
  finish i (marked marks) = marked (set_mark marks i done)

  -- `visit`; the fuel bounds the depth of the calls
  unfoldable pub visit : ℕ → ℕ → List Mark → List ℕ → Visit
  unfolding finish
  visit zero i marks path = stuck
  visit (suc fuel) i marks path = elim (get_elem? upstreams i) [
    | none ↦ stuck
    | some ups ↦ finish i (scan (visit fuel) ups (set_mark marks i active) (path ++ (i ∷ [])))
  ]

  -- the loop `for i in 0..nodes.len()`, `k` nodes before its end
  unfoldable pub visit_all : ℕ → ℕ → List Mark → Visit
  visit_all zero i marks = marked marks
  visit_all (suc k) i marks = elim (get_elem? marks i) [
    | none ↦ stuck
    | some unvisited ↦ elim (visit (suc (length nodes)) i marks []) [
      | found c ↦ found c
      | stuck ↦ stuck
      | marked marks' ↦ visit_all k (suc i) marks'
    ]
    | some active ↦ visit_all k (suc i) marks
    | some done ↦ visit_all k (suc i) marks
  ]

  unfoldable pub find_cycle : Visit
  unfolding visit_all visit scan
  find_cycle = visit_all (length nodes) 0 (map (λ _. unvisited) nodes)
