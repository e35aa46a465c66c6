-- ===== src/Records/Keys/Examples.antt =====
-- Keys of the tests of swale/src/records.rs.
use swale.Base.{◌≡◌, refl, true, some, Text, codes}
use swale.Graph.{is_name}
use swale.Partition.{Partition, is_partition}
use swale.Records.Keys.{graph_run_key, parse_graph_run_key, Expiring, suffix, parse_suffix}
use swale.Records.Keys.Parse.{parse_graph_run_key-graph_run_key, parse_graph_run_key_sound}
use swale.Records.Keys.Distinct.{place, record_key-injective, parse_suffix-suffix}

abbrev orders : Text
orders = codes "orders_daily"

abbrev day : Partition
day = record { key = codes "20260915" }

orders_valid : is_name orders ≡ true
unfolding is_name
orders_valid = refl

raw_valid : is_name (codes "orders_raw") ≡ true
unfolding is_name
raw_valid = refl

day_valid : is_partition day.key ≡ true
unfolding is_partition
day_valid = refl

parse_graph_run_key-graph_run_key_example :
    parse_graph_run_key (graph_run_key orders day) ≡ some (orders, day)
parse_graph_run_key-graph_run_key_example =
    parse_graph_run_key-graph_run_key orders day orders_valid day_valid

parse_graph_run_key_sound_example :
    (graph_run_key orders day ≡ graph_run_key orders day) × (is_partition day.key ≡ true)
parse_graph_run_key_sound_example =
    parse_graph_run_key_sound (graph_run_key orders day) orders day
      (parse_graph_run_key-graph_run_key orders day orders_valid day_valid)

record_key-injective_example :
    place orders day (codes "extract") (some (codes "orders_raw"))
    ≡ place orders day (codes "extract") (some (codes "orders_raw"))
record_key-injective_example =
    record_key-injective orders orders day day (codes "extract") (codes "extract")
      (some (codes "orders_raw")) (some (codes "orders_raw")) orders_valid orders_valid day_valid
      day_valid raw_valid raw_valid refl

parse_suffix-suffix_example :
    parse_suffix (suffix (Expiring.run orders day)) ≡ some (Expiring.run orders day)
parse_suffix-suffix_example =
    parse_suffix-suffix (Expiring.run orders day) (orders_valid, day_valid)
