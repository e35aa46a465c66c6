-- ===== src/Task/Ids.antt =====
-- The run ids of swale/src/task.rs: their length, and what they say of the task instance.
use swale.Base.{
  Memᴰ, ◌||◌, ◌==◌, is_ascii_digit, all_digits-show, ℕ, ◌+◌, ◌≤◌, ◌<◌, ◌≡◌, ◌≢◌, refl, sym, ◌∙◌,
  Bool, true, Option, some, [], ◌∷◌, ◌++◌, Text, Map, get, length, length-append, all, all-append,
  show, length-show, show-injective, cut-injective, arith, inl, inr, Option-cases,
}
use swale.Graph.Checks.{Cron}
use swale.Graph.Params.{OperatorSet}
use swale.Graph.Build.{build, graph}
use swale.Graph.Build.Result.{build_names}
use swale.Partition.{CivilTime}
use swale.Graph.{GraphSpec, is_name_byte, Graph, Node, name, is_name, max_graph_and_node_name_len}
use swale.Partition.{Partition, is_partition, is_partition_byte}
use swale.Records.{NodeRecord, GraphRunRecord}
use swale.Records.Keys.Parse.{names_avoid, all_weaker, name_bytes}
use swale.Records.Keys.Distinct.{partitions_avoid}
use swale.Task.{run_text, run_id, unrecorded_count, unrecorded_run_id, u32_max}

-- Two task instances with valid names and partitions have the same run id only if they agree in
-- the graph, the partition, the node and the rerun count.
pub run_text-injective :
    (g h p q n m : Text) (r s : ℕ)
    → is_name g ≡ true
    → is_name h ≡ true
    → is_partition p ≡ true
    → is_partition q ≡ true
    → is_name n ≡ true
    → is_name m ≡ true
    → run_text g p n r ≡ run_text h q m s
    → (g ≡ h) × (p ≡ q) × (n ≡ m) × (r ≡ s)
unfolding run_text
run_text-injective g h p q n m r s hg hh hp hq hn hm e =
    let (a, e1) =
      cut-injective b'-' g h _ _ (names_avoid b'-' g refl hg) (names_avoid b'-' h refl hh) e in
    let (b, e2) =
      cut-injective b'-' p q _ _ (partitions_avoid b'-' p refl hp) (partitions_avoid b'-' q refl hq)
        e1 in
    let (c, e3) =
      cut-injective b'-' n m _ _ (names_avoid b'-' n refl hn) (names_avoid b'-' m refl hm) e2 in
    let digits : show r ≡ show s = cc in (a, b, c, show-injective r s digits)

partition_len : (p : Text) → is_partition p ≡ true → length p ≤ 16
unfolding is_partition
partition_len p h = ground arith

-- A run id of names of at most 98 bytes together, a valid partition and a rerun count within
-- `u32` is at most 128 bytes long.
pub length-run_text :
    (g p n : Text) (r : ℕ)
    → length g + length n ≤ max_graph_and_node_name_len
    → is_partition p ≡ true
    → r ≤ u32_max
    → length (run_text g p n r) ≤ 128
unfolding run_text
length-run_text g p n r le h small =
    let key = partition_len p h in
    let digits = length-show 9 r (omega arith) in
    let tail = b'-' ∷ (b'r' ∷ show r) in
    let e1 = length-append g (b'-' ∷ (p ++ (b'-' ∷ (n ++ tail)))) in
    let e2 = length-append p (b'-' ∷ (n ++ tail)) in let e3 = length-append n tail in omega arith

abbrev is_id_byte : ℕ → Bool
is_id_byte b = is_partition_byte b || b == b'-'

run_text_bytes :
    (g p n : Text) (r : ℕ)
    → is_name g ≡ true
    → is_partition p ≡ true
    → is_name n ≡ true
    → all is_id_byte (run_text g p n r) ≡ true
unfolding run_text is_partition
run_text_bytes g p n r hg hp hn =
    let bytes : all is_partition_byte p ≡ true = ground arith in
    let a = all_weaker is_name_byte is_id_byte (λ b e. ground arith) g (name_bytes g hg) in
    let b = all_weaker is_partition_byte is_id_byte (λ b e. ground arith) p bytes in
    let c = all_weaker is_name_byte is_id_byte (λ b e. ground arith) n (name_bytes n hn) in
    let d =
      all_weaker is_ascii_digit is_id_byte (λ b e. ground arith) (show r) (all_digits-show r) in
    let tail = b'-' ∷ (b'r' ∷ show r) in
    ground (
      arith,
      all-append is_id_byte g (b'-' ∷ (p ++ (b'-' ∷ (n ++ tail)))),
      all-append is_id_byte p (b'-' ∷ (n ++ tail)),
      all-append is_id_byte n tail,
    )

-- What the runtime documents of `RunId::new`: it takes a text of one to 128 bytes, each an ASCII
-- letter or digit, `_` or `-`.
abbrev pub TakesIds : (Text → Option Text) → Type 0
TakesIds new_run_id =
    (t : Text) → t ≢ [] → length t ≤ 128 → all is_id_byte t ≡ true → new_run_id t ≡ some t

run_text_full : (g p n : Text) (r : ℕ) → is_name g ≡ true → run_text g p n r ≢ []
unfolding run_text
run_text_full [] p n r h e = cc
run_text_full (b ∷ g) p n r h e = cc

-- With a runtime that takes every run id of up to 128 bytes, the run id of a node of a graph that
-- `Graph::build` returned never panics, for a valid partition and a rerun count within `u32`.
pub run_id_total :
    {Expression : Type 0} (cron : Cron Expression) (from_timestamp_millis : ℕ → Option CivilTime)
    (operators : OperatorSet) (new_run_id : Text → Option Text) (spec : GraphSpec)
    (g : Graph Expression) (x : Node) (p : Partition) (r : ℕ)
    → TakesIds new_run_id
    → build cron from_timestamp_millis operators spec ≡ graph g
    → Memᴰ x g.nodes
    → is_partition p.key ≡ true
    → r ≤ u32_max
    → run_id new_run_id g.name p (name x) r ≡ some (run_text g.name p.key (name x) r)
unfolding run_id
run_id_total cron from_timestamp_millis operators new_run_id spec g x p r takes built m hp hr =
    let (hg, nodes) = build_names cron from_timestamp_millis operators spec g built in
    let (hn, fits) = nodes x m in
    takes (run_text g.name p.key (name x) r) (run_text_full g.name p.key (name x) r hg)
      (length-run_text g.name p.key (name x) r fits hp hr)
      (run_text_bytes g.name p.key (name x) r hg hp hn)

next_count :
    (run : GraphRunRecord) (n : Text) (r : NodeRecord) (c : ℕ)
    → r.rerun < u32_max
    → unrecorded_count run n (some r) ≡ some c
    → c ≡ r.rerun + 1
unfolding unrecorded_count
next_count run n r c lt h = ground arith

-- The run id of the task instance without a current record is new: for a node of a graph that
-- `Graph::build` returned, with a record `r` below the last rerun count of `u32`, it differs from
-- the run id of every count up to that of `r`, if the runtime takes every id of up to 128 bytes.
pub unrecorded_run_id_fresh :
    {Expression : Type 0} (cron : Cron Expression) (from_timestamp_millis : ℕ → Option CivilTime)
    (operators : OperatorSet) (new_run_id : Text → Option Text) (spec : GraphSpec)
    (g : Graph Expression) (x : Node) (p : Partition) (run : GraphRunRecord)
    (records : Map NodeRecord) (r : NodeRecord) (k : ℕ) (id : Option Text)
    → TakesIds new_run_id
    → build cron from_timestamp_millis operators spec ≡ graph g
    → Memᴰ x g.nodes
    → is_partition p.key ≡ true
    → get (name x) records ≡ some r
    → r.rerun < u32_max
    → k ≤ r.rerun
    → unrecorded_run_id new_run_id g p run x records ≡ some id
    → id ≢ run_id new_run_id g.name p (name x) k
unfolding unrecorded_run_id
unrecorded_run_id_fresh cron millis operators new_run_id spec g x p run records r k id takes built m
      hp found lt le h same =
    elim (Option-cases (unrecorded_count run (name x) (some r))) [
      | inl e ↦ absurd (ground arith)
      | inr (c, e) ↦
          let next = next_count run (name x) r c lt e in
          let (hg, nodes) = build_names cron millis operators spec g built in
          let hn = (nodes x m).0 in
          let idc =
            run_id_total cron millis operators new_run_id spec g x p c takes built m hp
              (omega arith) in
          let idk =
            run_id_total cron millis operators new_run_id spec g x p k takes built m hp
              (omega arith) in
          let made : run_id new_run_id g.name p (name x) c ≡ id = ground arith in
          let texts = sym idc ∙ (made ∙ (same ∙ idk)) in
          let equal : run_text g.name p.key (name x) c ≡ run_text g.name p.key (name x) k = cc in
          let (_, _, _, counts) =
            run_text-injective g.name g.name p.key p.key (name x) (name x) c k hg hg hp hp hn hn
              equal in
          omega arith
    ]
