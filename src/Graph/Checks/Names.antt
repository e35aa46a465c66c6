-- ===== src/Graph/Checks/Names.antt =====
-- Lemmas on the loop of `Graph::build` over the node names (swale/src/graph.rs).
use mathlib.Core.List.Memᴰ
use swale.Graph.{is_name, max_graph_and_node_name_len}
use swale.Base.{
  length, ◌≤◌, ltb, not, if◌then◌else◌, ℕ, zero, suc, ◌+◌, ◌≡◌, ◌≢◌, refl, Bool, true, false, ◌⊎◌,
  inl, inr, some, List, [], ◌∷◌, ◌++◌, Memᴰ, Text, Map, get, has, insert, get-insert, get_elem?,
  text_eq, text_eq_iff, text_eq_refl, arith, Bool-cases,
}
use swale.Graph.{NodeSpec}
use swale.Graph.Problems.{Problem, push_if}
use swale.Graph.Checks.{check_names}

pub append-eq_nil : {A : Type 0} (xs ys : List A) → xs ++ ys ≡ [] → (xs ≡ []) × (ys ≡ [])
append-eq_nil [] ys h = (refl, h)
append-eq_nil (x ∷ xs) ys h = cc

pub push_if-eq_nil : (b : Bool) (p : Problem) → push_if b p ≡ [] → b ≡ false
push_if-eq_nil true p h = cc
push_if-eq_nil false p h = refl

abbrev pub IsDistinctSpecs : List NodeSpec → Type 0
IsDistinctSpecs [] = Unit
IsDistinctSpecs (n ∷ ns) = ((m : NodeSpec) → Memᴰ m ns → m.name ≢ n.name) × IsDistinctSpecs ns

module _ (graph_name : Text) where
  abbrev faults : List NodeSpec → ℕ → Map ℕ → List Problem
  faults ns i index = (check_names graph_name ns i index).0

  abbrev final : List NodeSpec → ℕ → Map ℕ → Map ℕ
  final ns i index = (check_names graph_name ns i index).1

  -- no fault at a node: its name is new, and the rest has no fault
  fault_free :
      (n : NodeSpec) (ns : List NodeSpec) (i : ℕ) (index : Map ℕ)
      → faults (n ∷ ns) i index ≡ []
      → (has n.name index ≡ false) × (faults ns (suc i) (insert n.name i index) ≡ [])
  unfolding check_names
  fault_free n ns i index h =
      let (_, rest) = append-eq_nil _ _ h in
      let (dup, more) = append-eq_nil _ _ rest in (push_if-eq_nil _ _ dup, more)

  has-insert :
      (k j : Text) (i : ℕ) (index : Map ℕ)
      → has j (insert k i index) ≡ false
      → (has j index ≡ false) × (j ≢ k)
  has-insert k j i index h =
      let e = get-insert k j i index in
      (ground (arith, e), λ same. ground (arith, e, text_eq_iff k j))

  fresh :
      (ns : List NodeSpec) (i : ℕ) (index : Map ℕ)
      → faults ns i index ≡ []
      → (n : NodeSpec) → Memᴰ n ns
      → has n.name index ≡ false
  fresh [] i index h n m = absurd (Memᴰ.not-nil m)
  fresh (x ∷ ns) i index h n m =
      let (new, rest) = fault_free x ns i index h in
      elim (Memᴰ.cases_cons m) [
        | inl same ↦ rw same new
        | inr m' ↦
            (has-insert x.name n.name i index
              (fresh ns (suc i) (insert x.name i index) rest n m')).0
      ]

  pub names_distinct :
      (ns : List NodeSpec) (i : ℕ) (index : Map ℕ) → faults ns i index ≡ [] → IsDistinctSpecs ns
  names_distinct [] i index h = tt
  names_distinct (n ∷ ns) i index h =
      let (_, rest) = fault_free n ns i index h in
      (
        λ m mm.
            (has-insert n.name m.name i index
              (fresh ns (suc i) (insert n.name i index) rest m mm)).1,
        names_distinct ns (suc i) (insert n.name i index) rest,
      )

  -- An entry of the index was there before, or is the position of a node of that name.
  pub index_origin :
      (ns : List NodeSpec) (i : ℕ) (index : Map ℕ) (k : Text) (v : ℕ)
      → get k (final ns i index) ≡ some v
      → (get k index ≡ some v)
        ⊎ ((p : ℕ) × (n : NodeSpec) × (get_elem? ns p ≡ some n) × (n.name ≡ k) × (v ≡ i + p))
  unfolding check_names
  index_origin [] i index k v h = inl h
  index_origin (n ∷ ns) i index k v h =
      elim (index_origin ns (suc i) (insert n.name i index) k v h) [
        | inr (p, m, a, b, c) ↦ inr (suc p, m, a, b, omega arith)
        | inl old ↦ elim (Bool-cases (text_eq n.name k)) [
          | inl same ↦ inr (
            0,
            n,
            refl,
            (text_eq_iff n.name k).0 same,
            ground (arith, get-insert n.name k i index),
          )
          | inr other ↦ inl (ground (arith, get-insert n.name k i index))
        ]
      ]

  index_old :
      (ns : List NodeSpec) (i : ℕ) (index : Map ℕ) (k : Text) (v : ℕ)
      → faults ns i index ≡ []
      → get k index ≡ some v
      → get k (final ns i index) ≡ some v
  unfolding check_names
  index_old [] i index k v h e = e
  index_old (n ∷ ns) i index k v h e =
      let (new, rest) = fault_free n ns i index h in
      index_old ns (suc i) (insert n.name i index) k v rest
        (ground (arith, get-insert n.name k i index, text_eq_iff n.name k))

  -- Without a fault the index gives the position of every node.
  pub index_position :
      (ns : List NodeSpec) (i : ℕ) (index : Map ℕ) (p : ℕ) (n : NodeSpec)
      → faults ns i index ≡ []
      → get_elem? ns p ≡ some n
      → get n.name (final ns i index) ≡ some (i + p)
  unfolding check_names
  index_position [] i index p n h e = cc
  index_position (x ∷ ns) i index zero n h e =
      let (new, rest) = fault_free x ns i index h in
      let same : x ≡ n = ground arith in
      let here =
        index_old ns (suc i) (insert x.name i index) x.name i rest
          (ground (arith, get-insert x.name x.name i index, text_eq_refl x.name)) in
      rw (← same) (ground (arith, here))
  index_position (x ∷ ns) i index (suc p) n h e =
      let (new, rest) = fault_free x ns i index h in
      ground (arith, index_position ns (suc i) (insert x.name i index) p n rest e)

  abbrev name_fault : NodeSpec → List Problem
  name_fault n =
      if not (is_name n.name)
      then Problem.invalid_node_name n.name ∷ []
      else push_if (ltb max_graph_and_node_name_len (length graph_name + length n.name))
          (Problem.names_too_long n.name)

  name_fault-eq_nil :
      (n : NodeSpec)
      → name_fault n ≡ []
      → (is_name n.name ≡ true) × (length graph_name + length n.name ≤ max_graph_and_node_name_len)
  name_fault-eq_nil n h = elim (Bool-cases (is_name n.name)) [
    | inr bad ↦ absurd (ground arith)
    | inl valid ↦
        let long = ltb max_graph_and_node_name_len (length graph_name + length n.name) in
        let short = push_if-eq_nil long (Problem.names_too_long n.name) (rw valid at h) in
        (valid, ground arith)
  ]

  head_valid :
      (n : NodeSpec) (ns : List NodeSpec) (i : ℕ) (index : Map ℕ)
      → faults (n ∷ ns) i index ≡ []
      → (is_name n.name ≡ true) × (length graph_name + length n.name ≤ max_graph_and_node_name_len)
  unfolding check_names
  head_valid n ns i index h =
      name_fault-eq_nil n
        (append-eq_nil (name_fault n)
          (push_if (has n.name index) (Problem.duplicate_node n.name)
            ++ faults ns (suc i) (insert n.name i index))
          h).0

  -- Without a fault every name is valid and short enough together with the graph's.
  pub names_valid :
      (ns : List NodeSpec) (i : ℕ) (index : Map ℕ)
      → faults ns i index ≡ []
      → (n : NodeSpec) → Memᴰ n ns
      → (is_name n.name ≡ true) × (length graph_name + length n.name ≤ max_graph_and_node_name_len)
  names_valid [] i index h n m = absurd (Memᴰ.not-nil m)
  names_valid (x ∷ ns) i index h n m =
      let (_, rest) = fault_free x ns i index h in
      elim (Memᴰ.cases_cons m) [
        | inl same ↦ rw same (head_valid x ns i index h)
        | inr m' ↦ names_valid ns (suc i) (insert x.name i index) rest n m'
      ]
