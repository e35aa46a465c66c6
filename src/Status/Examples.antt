-- ===== src/Status/Examples.antt =====
-- The listing of a graph with two runs, and the last record of a listing.
use swale.Base.{◌≡◌, ◌+◌, none, some, Option, List, [], ◌∷◌, Text, Map, codes}
use swale.Partition.{Partition}
use swale.Records.{GraphRunRecord, GraphRunState}
use swale.Records.Keys.{graph_run_key}
use swale.Records.Listing.{Entry, scan, reverse, scan_last}
use swale.Records.Listing.Last.{take, scan_last-scan}
use swale.Scheduler.Steps.Advance.Examples.{run_with}
use swale.Status.{GraphStatus, graph_entry, add_runs}
use swale.Status.Graphs.{of_state, number, runs_of, last_of, add_runs-counts}

abbrev first_day : Partition
first_day = record { key = codes "20260915" }

abbrev second_day : Partition
second_day = record { key = codes "20260916" }

abbrev entries : List (Entry GraphRunRecord)
entries =
    (graph_run_key (codes "demo") first_day, codes "c", run_with GraphRunState.complete)
    ∷ (graph_run_key (codes "demo") second_day, codes "a", run_with GraphRunState.active)
    ∷ []

abbrev no_graphs : Map GraphStatus
no_graphs = []

add_runs-counts_example :
    (of_state GraphRunState.active (graph_entry (add_runs entries no_graphs) (codes "demo")).runs
      ≡ of_state GraphRunState.active (graph_entry no_graphs (codes "demo")).runs
        + number GraphRunState.active (runs_of (codes "demo") entries))
    × ((graph_entry (add_runs entries no_graphs) (codes "demo")).latest
        ≡ last_of (graph_entry no_graphs (codes "demo")).latest (runs_of (codes "demo") entries))
add_runs-counts_example = add_runs-counts GraphRunState.active (codes "demo") entries no_graphs

abbrev decode : Text → Option Text
decode [] = none
decode (b ∷ t) = some t

abbrev listing : List (Text × Text)
listing = (codes "a", codes "1x") ∷ (codes "b", []) ∷ (codes "c", codes "2y") ∷ []

scan_last-scan_example :
    scan_last decode 1 (reverse listing) ≡ reverse (take 1 (reverse (scan decode listing)))
scan_last-scan_example = scan_last-scan decode 1 listing
