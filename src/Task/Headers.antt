-- ===== src/Task/Headers.antt =====
-- The headers of a run (swale/src/task.rs) and the identity that is read from them.
use swale.Base.{
  codes, ℕ, ◌≤◌, ◌≡◌, refl, true, some, none, Option, Text, get, insert, text_eq, text_lt, show,
  parse_uint-show,
}
use swale.Base.Results.{ok}
use swale.Partition.{Partition, is_partition}
use swale.Partition
use swale.Task.{
  TaskIdentity, headers, from_headers, u32_max, required, partition_of, rerun_of, base_headers,
  with_asset,
}

partition_of-key : (p : Partition.Partition) → is_partition p.key ≡ true → partition_of p.key ≡ ok p
unfolding partition_of Partition.new
partition_of-key p h = rw (partition_of, h) refl

rerun_of-show : (n : ℕ) → n ≤ u32_max → rerun_of (show n) ≡ ok n
unfolding rerun_of
rerun_of-show n le = rw (rerun_of, parse_uint-show u32_max n le) refl

abbrev made : Text → Partition.Partition → Text → Option Text → Text → ℕ → TaskIdentity
made g p n a d r = record {
  graph = g;
  partition = p;
  node = n;
  asset = a;
  definition = d;
  rerun = r;
}

read_back :
    (g : Text) (p : Partition.Partition) (n : Text) (a : Option Text) (d : Text) (r : ℕ)
    → is_partition p.key ≡ true
    → r ≤ u32_max
    → from_headers (headers (made g p n a d r)) ≡ ok (made g p n a d r)
unfolding from_headers headers required base_headers with_asset get insert text_eq text_lt
read_back g p n none d r h le = rw (partition_of-key p h, rerun_of-show r le) refl
read_back g p n (some a) d r h le = rw (partition_of-key p h, rerun_of-show r le) refl

-- The headers of a task instance with a valid partition and a rerun count within `u32` are read
-- back to its identity, whether it has an asset or not.
pub from_headers-headers :
    (i : TaskIdentity)
    → is_partition i.partition.key ≡ true
    → i.rerun ≤ u32_max
    → from_headers (headers i) ≡ ok i
from_headers-headers i = read_back i.graph i.partition i.node i.asset i.definition i.rerun

-- A task instance's own headers have no group.
pub get-headers-group : (i : TaskIdentity) → get (codes "swale.group") (headers i) ≡ none
unfolding headers base_headers with_asset get insert text_eq text_lt
get-headers-group i = absent i.graph i.partition i.node i.asset i.definition i.rerun
  where
    absent :
        (g : Text) (p : Partition) (n : Text) (a : Option Text) (d : Text) (r : ℕ)
        → get (codes "swale.group") (
            headers
              (record { graph = g; partition = p; node = n; asset = a; definition = d; rerun = r }))
          ≡ none
    absent g p n none d r = refl
    absent g p n (some a) d r = refl
