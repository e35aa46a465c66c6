-- ===== src/Graph/Checks.antt =====
-- swale/src/graph.rs, `Graph::build`: the checks of the schedule, the names, the assets and the
-- upstreams. The parser of cron expressions and the civil time of a timestamp are parameters.
pub mod Names
pub mod Upstreams
use swale.Base.{
  ℕ, zero, suc, ◌+◌, Bool, true, false, not, ◌&&◌, ◌||◌, Option, none, some, List, [], ◌∷◌, ◌++◌,
  Text, Map, get, has, insert, remove, contains, set_insert, length, all, any, map, ltb, ◌==◌,
  if◌then◌else◌, codes, text_eq, show,
}
use swale.Data.{Toml, TomlItems, TomlTable}
use swale.Graph.{
  Partitioning, daily, hourly, unpartitioned, NodeKind, NodeSpec, GraphSpec, Node, Graph, is_name,
  is_empty, max_graph_and_node_name_len, is_some,
}
use swale.Graph.Problems.{Problem, push_if}
use swale.Partition.{Partition, CivilTime, of_time}

pub data CronResult (Expression : Type 0) : Type 0 where
  ok : Expression → CronResult Expression
  err : Text → CronResult Expression

-- `taquba_cron::Expression`: its parser, with the message of a refusal, and its occurrences
pub record Cron (Expression : Type 0) : Type 0 where
  pub parse : Text → CronResult Expression
  pub next_after : Expression → ℕ → Option ℕ
  pub previous_before : Expression → ℕ → Option ℕ

-- equality of two values of `Option<Partition>`
abbrev pub same_partition : Option Partition → Option Partition → Bool
same_partition none none = true
same_partition none (some _) = false
same_partition (some _) none = false
same_partition (some p) (some q) = text_eq p.key q.key

abbrev is_unpartitioned : Partitioning → Bool
is_unpartitioned daily = false
is_unpartitioned hourly = false
is_unpartitioned unpartitioned = true

module _ {Expression : Type 0} (cron : Cron Expression)
    (from_timestamp_millis : ℕ → Option CivilTime) where
  -- an occurrence within the partition of the first one
  abbrev falls_within : Partitioning → ℕ → Option ℕ → Bool
  falls_within p first none = false
  falls_within p first (some ms) =
      same_partition (of_time from_timestamp_millis p ms) (of_time from_timestamp_millis p first)

  unfoldable pub fires_twice_within_a_partition : Expression → Partitioning → Bool
  fires_twice_within_a_partition schedule p =
      if is_unpartitioned p then false else elim (cron.next_after schedule 0) [
        | none ↦ false
        | some first ↦
            falls_within p first (cron.previous_before schedule first)
            || falls_within p first (cron.next_after schedule first)
      ]

  parsed_schedule : Text → Partitioning → CronResult Expression → List Problem × Option Expression
  unfolding fires_twice_within_a_partition
  parsed_schedule expression p (CronResult.ok parsed) = (
    push_if (fires_twice_within_a_partition parsed p)
        (Problem.schedule_within_partition expression p),
    some parsed,
  )
  parsed_schedule expression p (CronResult.err message) =
      (Problem.invalid_schedule expression message ∷ [], none)

  -- the faults of the schedule and the parsed schedule
  unfoldable pub check_schedule : Option Text → Partitioning → List Problem × Option Expression
  unfolding parsed_schedule
  check_schedule none p = ([], none)
  check_schedule (some expression) p =
      let (ps, schedule) = parsed_schedule expression p (cron.parse expression) in
      (ps ++ push_if (is_unpartitioned p) Problem.schedule_without_partition, schedule)

-- the loop that builds `index`, from the position `i`
unfoldable pub check_names : Text → List NodeSpec → ℕ → Map ℕ → List Problem × Map ℕ
check_names graph_name [] i index = ([], index)
check_names graph_name (n ∷ ns) i index =
    let (ps, index') = check_names graph_name ns (suc i) (insert n.name i index) in
    (
      (if not (is_name n.name)
            then Problem.invalid_node_name n.name ∷ []
            else push_if (ltb max_graph_and_node_name_len (length graph_name + length n.name))
                (Problem.names_too_long n.name))
          ++ (push_if (has n.name index) (Problem.duplicate_node n.name) ++ ps),
      index',
    )

unfoldable pub check_asset_names : Text → List Text → List Problem
check_asset_names node [] = []
check_asset_names node (a ∷ as_) =
    push_if (not (is_name a)) (Problem.invalid_asset_name node a) ++ check_asset_names node as_

abbrev pub producers_of : Text → Map (List Text) → List Text
producers_of a producers = elim (get a producers) [ none ↦ [] | some names ↦ names ]

unfoldable pub add_producer : NodeKind → Text → Map (List Text) → Map (List Text)
add_producer (NodeKind.asset produces consumes) node producers =
    insert produces (producers_of produces producers ++ (node ∷ [])) producers
add_producer (NodeKind.task after rule) node producers = producers

unfoldable pub asset_problems : NodeKind → Text → List Problem
asset_problems (NodeKind.asset produces consumes) node =
    check_asset_names node (produces ∷ consumes)
asset_problems (NodeKind.task after rule) node = []

-- the loop that builds `producers`
unfoldable pub check_producers : List NodeSpec → Map (List Text) → List Problem × Map (List Text)
unfolding add_producer asset_problems
check_producers [] producers = ([], producers)
check_producers (n ∷ ns) producers =
    let (ps, producers') = check_producers ns (add_producer n.kind n.name producers) in
    (asset_problems n.kind n.name ++ ps, producers')

unfoldable pub check_duplicates : Map (List Text) → List Problem
check_duplicates [] = []
check_duplicates ((a, names) ∷ m) =
    push_if (ltb 1 (length names)) (Problem.duplicate_asset a names) ++ check_duplicates m

-- `BTreeSet::extend`
unfoldable pub extend : List Text → List Text → List Text
extend [] s = s
extend (x ∷ xs) s = extend xs (set_insert x s)

unfoldable pub consume : Map (List Text) → Text → List Text → List Text → List Problem × List Text
consume producers node [] s = ([], s)
consume producers node (a ∷ as_) s =
    let (ps, s') = consume producers node as_ (extend (producers_of a producers) s) in
    (push_if (not (has a producers)) (Problem.unknown_asset node a) ++ ps, s')

unfoldable pub follow : Map ℕ → Text → List Text → List Text → List Problem × List Text
follow index node [] s = ([], s)
follow index node (u ∷ us) s =
    let (ps, s') = follow index node us (if has u index then set_insert u s else s) in
    (push_if (not (has u index)) (Problem.unknown_node node u) ++ ps, s')

unfoldable pub kind_upstreams : Map ℕ → Map (List Text) → Text → NodeKind → List Problem × List Text
kind_upstreams index producers node (NodeKind.asset produces consumes) =
    consume producers node consumes []
kind_upstreams index producers node (NodeKind.task after rule) = follow index node after []

-- the loop that builds `upstreams`
unfoldable pub check_upstreams :
    Map ℕ → Map (List Text) → List NodeSpec → List Problem × List (List Text)
unfolding kind_upstreams consume follow
check_upstreams index producers [] = ([], [])
check_upstreams index producers (n ∷ ns) =
    let (ps, ups) = kind_upstreams index producers n.name n.kind in
    let (qs, rest) = check_upstreams index producers ns in (ps ++ qs, ups ∷ rest)
