-- ===== src/Graph/Ordered.antt =====
-- Conditions on the nodes of a graph (swale/src/graph.rs): names without a repeat, upstreams that
-- are nodes, and no endless chain of upstreams.
use mathlib.Core.List.Memᴰ
use mathlib.Core.WellFounded.{Acc}
use swale.Base.{◌≡◌, ◌≢◌, sym, ap, ◌∙◌, List, [], ◌∷◌, Memᴰ, Text, inl, inr}
use swale.Graph.{Node, name}

abbrev pub IsDistinct : List Node → Type 0
IsDistinct [] = Unit
IsDistinct (n ∷ ns) = ((m : Node) → Memᴰ m ns → name m ≢ name n) × IsDistinct ns

-- `u` is an upstream of the node with the name `k`.
pub data Below (nodes : List Node) (u k : Text) : Type 0 where
  below : (n : Node) → Memᴰ n nodes → name n ≡ k → Memᴰ u n.upstreams → Below nodes u k

pub record IsOrdered (nodes : List Node) : Type 0 where
  pub distinct : IsDistinct nodes
  pub known :
      (n : Node) (u : Text)
      → Memᴰ n nodes
      → Memᴰ u n.upstreams
      → (m : Node) × Memᴰ m nodes × (name m ≡ u)
  pub grounded : (n : Node) → Memᴰ n nodes → Acc (Below nodes) (name n)

-- In a list without a repeated name the name determines the node.
pub eq_of_name :
    (nodes : List Node)
    → IsDistinct nodes
    → (m n : Node) → Memᴰ m nodes
    → Memᴰ n nodes
    → name m ≡ name n
    → m ≡ n
eq_of_name [] d m n p q e = absurd (Memᴰ.not-nil p)
eq_of_name (x ∷ xs) d m n p q e = elim (Memᴰ.cases_cons p) [
  | inl a ↦ elim (Memᴰ.cases_cons q) [
    | inl b ↦ a ∙ sym b
    | inr b ↦ absurd (d.0 n b (sym e ∙ ap name a))
  ]
  | inr a ↦ elim (Memᴰ.cases_cons q) [
    | inl b ↦ absurd (d.0 m a (e ∙ ap name b))
    | inr b ↦ eq_of_name xs d.1 m n a b e
  ]
]
