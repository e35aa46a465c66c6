-- ===== src/Records/Keys/Parse.antt =====
-- The parsers of the keys of swale/src/records.rs against the functions that build the keys.
use swale.Base.{
  ℕ, ◌≡◌, ◌↔◌, refl, sym, ap, ◌∙◌, subst, Bool, true, false, some, [], ◌∷◌, inl, inr, ◌++◌, Text,
  all, all-append, Avoids, Avoids-of_all, strip_prefix, strip_prefix-append, strip_prefix-eq_some,
  split_once, split_once-append, split_once-eq_some, is_utf8, is_ascii, is_utf8-ascii, arith,
  Bool-cases, bind-eq_some, bind-some, guard-eq_some,
}
use swale.Graph.{is_name, is_name_byte}
use swale.Partition.{Partition, is_partition, is_partition_byte}
use swale.Partition
use swale.Records.Keys.{
  graphs_prefix, graph_runs_prefix, graph_key, parse_graph_key, path, graph_run_key,
  parse_graph_run_key, from_utf8, name_of, with_partition,
}

pub all_weaker :
    (p q : ℕ → Bool)
    → ((b : ℕ) → p b ≡ true → q b ≡ true)
    → (t : Text) → all p t ≡ true
    → all q t ≡ true
all_weaker p q weaker [] h = refl
all_weaker p q weaker (b ∷ t) h = ground (arith, weaker b, all_weaker p q weaker t)

pub name_bytes : (t : Text) → is_name t ≡ true → all is_name_byte t ≡ true
unfolding is_name
name_bytes t h = ground arith

pub name_ascii : (t : Text) → is_name t ≡ true → all is_ascii t ≡ true
name_ascii t h = all_weaker is_name_byte is_ascii (λ b e. ground arith) t (name_bytes t h)

pub new-eq_some :
    (t : Text) (p : Partition) → Partition.new t ≡ some p → (p.key ≡ t) × (is_partition t ≡ true)
unfolding Partition.new
new-eq_some t p h = elim (Bool-cases (is_partition t)) [
  | inl valid ↦
      let same : some (record { key = t }) ≡ some p = sym (rw valid) ∙ h in
      (ground (arith, same), valid)
  | inr no_key ↦ absurd (ground arith)
]

pub partition_ascii : (t : Text) → is_partition t ≡ true → all is_ascii t ≡ true
unfolding is_partition
partition_ascii t h =
    let bytes : all is_partition_byte t ≡ true = ground arith in
    all_weaker is_partition_byte is_ascii (λ b e. ground arith) t bytes

graph_key-ascii : (g : Text) → is_name g ≡ true → all is_ascii (graph_key g) ≡ true
graph_key-ascii g h = all-append is_ascii graphs_prefix g ∙ name_ascii g h

pub from_utf8-ascii : (t : Text) → all is_ascii t ≡ true → from_utf8 t ≡ some t
from_utf8-ascii t h = rw (is_utf8-ascii t h) refl

-- `parse_graph_key` returns a name for a key exactly when the key is the graph key of that name
-- and the name is valid.
pub parse_graph_key-graph_key :
    (key graph : Text)
    → (parse_graph_key key ≡ some graph) ↔ ((key ≡ graph_key graph) × (is_name graph ≡ true))
unfolding parse_graph_key
parse_graph_key-graph_key key graph = (
  λ h.
      let (text, a, rest) = bind-eq_some (from_utf8 key) _ h in
      let (_, same) = guard-eq_some (is_utf8 key) key a in
      let (name_, b, last) = bind-eq_some (strip_prefix graphs_prefix text) name_of rest in
      let (valid, eq) = guard-eq_some (is_name name_) name_ last in
      (
        same ∙ (strip_prefix-eq_some graphs_prefix text name_ b ∙ ap graph_key eq),
        subst (λ n. is_name n ≡ true) eq valid,
      ),
  λ h.
      let made : parse_graph_key (graph_key graph) ≡ some graph =
        bind-some _ (from_utf8-ascii (graph_key graph) (graph_key-ascii graph h.1))
          (bind-some name_of (strip_prefix-append graphs_prefix graph) (rw h.1 refl)) in
      rw h.0 made,
)

pub names_avoid : (c : ℕ) (t : Text) → is_name_byte c ≡ false → is_name t ≡ true → Avoids c t
names_avoid c t out h = Avoids-of_all is_name_byte c t out (name_bytes t h)

graph_run_key-ascii :
    (g : Text) (p : Text)
    → is_name g ≡ true
    → is_partition p ≡ true
    → all is_ascii (graph_runs_prefix ++ path g p) ≡ true
graph_run_key-ascii g p h k = ground (
  arith,
  all-append is_ascii graph_runs_prefix (path g p),
  all-append is_ascii g (b'/' ∷ p),
  name_ascii g h,
  partition_ascii p k,
)

-- The key of a graph run with a valid graph name and partition is parsed back to them.
pub parse_graph_run_key-graph_run_key :
    (graph : Text) (partition : Partition)
    → is_name graph ≡ true
    → is_partition partition.key ≡ true
    → parse_graph_run_key (graph_run_key graph partition) ≡ some (graph, partition)
unfolding parse_graph_run_key Partition.new
parse_graph_run_key-graph_run_key graph partition h k =
    bind-some _
      (from_utf8-ascii (graph_run_key graph partition)
        (graph_run_key-ascii graph partition.key h k))
      (bind-some _ (strip_prefix-append graph_runs_prefix (path graph partition.key)) (
        bind-some with_partition
          (split_once-append b'/' graph partition.key (names_avoid b'/' graph refl h)) (rw k refl)))

with_partition_sound :
    (l r graph : Text) (partition : Partition)
    → with_partition (l, r) ≡ some (graph, partition)
    → (path l r ≡ path graph partition.key) × (is_partition partition.key ≡ true)
unfolding Partition.new
with_partition_sound l r graph partition h = elim (Bool-cases (is_partition r)) [
  | inr bad ↦ absurd (ground arith)
  | inl valid ↦
      let same : (l ≡ graph) × (record { key = r } ≡ partition) = ground arith in
      (
        ap (λ (g : Text). path g r) same.0 ∙ ap (λ (p : Partition). path graph p.key) same.1,
        subst (λ (p : Partition). is_partition p.key ≡ true) same.1 valid,
      )
]

-- Whatever key the parser reads is the key of the graph run that it returns, and the partition is
-- valid.
pub parse_graph_run_key_sound :
    (key graph : Text) (partition : Partition)
    → parse_graph_run_key key ≡ some (graph, partition)
    → (key ≡ graph_run_key graph partition) × (is_partition partition.key ≡ true)
unfolding parse_graph_run_key
parse_graph_run_key_sound key graph partition h =
    let (text, a, h1) = bind-eq_some (from_utf8 key) _ h in
    let (_, same) = guard-eq_some (is_utf8 key) key a in
    let (rest, b, h2) = bind-eq_some (strip_prefix graph_runs_prefix text) _ h1 in
    let ((l, r), c, h3) = bind-eq_some (split_once b'/' rest) with_partition h2 in
    let (cut, _) = split_once-eq_some b'/' rest l r c in
    let (parts, valid) = with_partition_sound l r graph partition h3 in
    (
      same
          ∙ (strip_prefix-eq_some graph_runs_prefix text rest b
              ∙ ap (λ (t : Text). graph_runs_prefix ++ t) (cut ∙ parts)),
      valid,
    )
