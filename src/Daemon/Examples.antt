-- ===== src/Daemon/Examples.antt =====
-- A pass of `Daemon::sync` over two definitions that produce the same asset.
use swale.Base.{
  ◌≡◌, refl, some, List, [], ◌∷◌, Text, codes, get, insert, text_eq, arith, if◌then◌else◌, true,
}
use swale.Base.Calls.{Done}
use swale.Daemon.{
  Sync, adopt_pending, adopt_loaded, adopt_checked, adopt, check, asset_reason, pool_reason,
}
use swale.Daemon.Exclusive.{IsExclusive, adopt_pending-IsExclusive}
use swale.Graph.{Graph, conflicting_asset, node_asset, asset_of_kind}
use swale.Graph.Examples.{demo_graph}
use swale.Records.{GraphRecord}
use swale.Scheduler.Services.{Services, Action}
use swale.Scheduler.Steps.Advance.Examples.{Store, demo_services}

abbrev copy : Graph Text
copy = record demo_graph { name = codes "copy" }

abbrev services : Services Store Text
services = record demo_services {
  definition =
      λ hash s. (Done.ok (some (if text_eq hash (codes "h1") then demo_graph else copy)), s);
  has_runtime = λ _. true;
}

abbrev pointers : Action Store (List (Text × Text))
pointers s = (Done.ok [], s)

abbrev put : Text → Text → Action Store Unit
put k v s = (Done.ok tt, (k, v) ∷ s)

abbrev encode : GraphRecord → Text
encode r = r.definition

abbrev pending : List (Text × Text)
pending = (codes "demo", codes "h1") ∷ (codes "copy", codes "h2") ∷ []

abbrev start : Sync Text
start = record { graphs = []; adopted = []; refused = [] }

abbrev end : Sync Text
end = record {
  graphs = (codes "demo", demo_graph) ∷ [];
  adopted = (codes "demo", codes "h1") ∷ [];
  refused = (codes "copy", codes "node `a`: asset `raw` is produced by graph `demo`") ∷ [];
}

synced :
    adopt_pending services pointers put encode pending start []
    ≡ (Done.ok end, (codes "swale/graphs/demo", codes "h1") ∷ [])
unfolding adopt_pending adopt_loaded adopt_checked adopt check asset_reason pool_reason text_eq
    insert conflicting_asset node_asset asset_of_kind
synced = refl

start-IsExclusive : IsExclusive start.graphs
unfolding get
start-IsExclusive i j g h at_i at_j other = absurd (ground arith)

adopt_pending-IsExclusive_example : IsExclusive end.graphs
adopt_pending-IsExclusive_example =
    adopt_pending-IsExclusive services pointers put encode pending start end []
      ((codes "swale/graphs/demo", codes "h1") ∷ []) start-IsExclusive synced
