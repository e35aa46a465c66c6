-- ===== src/Records/Keys/Distinct.antt =====
-- The keys of node records and the suffixes of expiry entries (swale/src/records.rs), and what
-- they say of the record.
use mathlib.Core.Option
use swale.Base.{
  ℕ, ◌≡◌, refl, true, false, Option, none, some, ◌∷◌, Text, all, all-append, Avoids, Avoids-of_all,
  cut-injective, split_once, split_once-append, is_ascii, text_eq, arith, bind-some, codes,
}
use swale.Graph.{is_name, is_name_byte}
use swale.Partition.{Partition, is_partition, is_partition_byte}
use swale.Partition
use swale.Request.{RequestId, is_request_id, is_request_id_byte}
use swale.Records.Keys.{
  path, record_key, Expiring, run, request, suffix, parse_suffix, expiring_of, expiring_run,
}
use swale.Records.Keys.Parse.{names_avoid, name_ascii, partition_ascii, all_weaker, from_utf8-ascii}

pub partitions_avoid :
    (c : ℕ) (t : Text) → is_partition_byte c ≡ false → is_partition t ≡ true → Avoids c t
unfolding is_partition
partitions_avoid c t out h =
    let bytes : all is_partition_byte t ≡ true = ground arith in
    Avoids-of_all is_partition_byte c t out bytes

-- What a record key stands for: an asset and a partition, or a graph, a partition and a node.
pub data Place : Type 0 where
  of_asset : Text → Text → Place
  of_task : Text → Text → Text → Place

pub place : Text → Partition → Text → Option Text → Place
place graph partition node (some asset) = of_asset asset partition.key
place graph partition node none = of_task graph partition.key node

assets_apart :
    (a b p q : Text)
    → is_name a ≡ true
    → is_name b ≡ true
    → path a p ≡ path b q
    → of_asset a p ≡ of_asset b q
assets_apart a b p q ha hb e =
    let (s, t) =
      cut-injective b'/' a b p q (names_avoid b'/' a refl ha) (names_avoid b'/' b refl hb) e in
    rw (s, t) refl

tasks_apart :
    (g h p q n m : Text)
    → is_name g ≡ true
    → is_name h ≡ true
    → is_partition p ≡ true
    → is_partition q ≡ true
    → path g (path p n) ≡ path h (path q m)
    → of_task g p n ≡ of_task h q m
tasks_apart g h p q n m hg hh hp hq e =
    let (s, r) =
      cut-injective b'/' g h (path p n) (path q m) (names_avoid b'/' g refl hg)
        (names_avoid b'/' h refl hh) e in
    let (t, u) =
      cut-injective b'/' p q n m (partitions_avoid b'/' p refl hp) (partitions_avoid b'/' q refl hq)
        r in
    rw (s, t, u) refl

abbrev IsAssetName : Option Text → Type 0
IsAssetName none = Unit
IsAssetName (some a) = is_name a ≡ true

tail_eq : {a b : ℕ} {s t : Text} → a ∷ s ≡ b ∷ t → s ≡ t
tail_eq e = cc

-- With valid names and partitions, two nodes whose records have the same key are the same asset
-- for the same partition, or the same node of the same graph for the same partition.
pub record_key-injective :
    (g h : Text) (p q : Partition) (n m : Text) (a b : Option Text)
    → is_name g ≡ true
    → is_name h ≡ true
    → is_partition p.key ≡ true
    → is_partition q.key ≡ true
    → IsAssetName a
    → IsAssetName b
    → record_key g p n a ≡ record_key h q m b
    → place g p n a ≡ place h q m b
unfolding record_key place
record_key-injective g h p q n m (some a) (some b) hg hh hp hq ha hb e =
    assets_apart a b p.key q.key ha hb (ground (arith, e))
record_key-injective g h p q n m none none hg hh hp hq ha hb e =
    tasks_apart g h p.key q.key n m hg hh hp hq (ground (arith, e))
record_key-injective g h p q n m (some a) none hg hh hp hq ha hb e = absurd (ground arith)
record_key-injective g h p q n m none (some b) hg hh hp hq ha hb e = absurd (ground arith)

abbrev IsExpiring : Expiring → Type 0
IsExpiring (run graph partition) = (is_name graph ≡ true) × (is_partition partition.key ≡ true)
IsExpiring (request id) = is_request_id id.text ≡ true

suffix-ascii : (x : Expiring) → IsExpiring x → all is_ascii (suffix x) ≡ true
unfolding suffix
suffix-ascii (run g p) (hg, hp) =
    ground (arith, all-append is_ascii g (b'/' ∷ p.key), name_ascii g hg, partition_ascii p.key hp)
suffix-ascii (request id) h =
    let bytes : all is_request_id_byte id.text ≡ true = ground arith in
    ground (arith, all_weaker is_request_id_byte is_ascii (λ b e. ground arith) id.text bytes)

split_suffix :
    (kind rest : Text) → Avoids b'/' kind → split_once b'/' (path kind rest) ≡ some (kind, rest)
split_suffix kind rest free = split_once-append b'/' kind rest free

expiring_of-run :
    (g : Text) (p : Partition)
    → is_name g ≡ true
    → is_partition p.key ≡ true
    → expiring_of (codes "runs", path g p.key) ≡ some (run g p)
unfolding expiring_of text_eq expiring_run Option.map Option.bind Partition.new
expiring_of-run g p hg hp =
    rw (split_once-append b'/' g p.key (names_avoid b'/' g refl hg)) (rw hp refl)

expiring_of-request :
    (id : RequestId)
    → is_request_id id.text ≡ true
    → expiring_of (codes "requests", id.text) ≡ some (request id)
unfolding expiring_of text_eq Option.map
expiring_of-request id h = rw h refl

-- The suffix of an expiry entry is parsed back to the record that it names: a graph run with a
-- valid graph name and partition, or a request with a valid id.
pub parse_suffix-suffix : (x : Expiring) → IsExpiring x → parse_suffix (suffix x) ≡ some x
unfolding parse_suffix suffix
parse_suffix-suffix (run g p) h =
    bind-some _ (from_utf8-ascii (suffix (run g p)) (suffix-ascii (run g p) h)) (
      bind-some expiring_of
        (split_suffix (codes "runs") (path g p.key)
          (Avoids-of_all is_name_byte b'/' (codes "runs") refl refl))
        (expiring_of-run g p h.0 h.1))
parse_suffix-suffix (request id) h =
    bind-some _ (from_utf8-ascii (suffix (request id)) (suffix-ascii (request id) h)) (
      bind-some expiring_of
        (split_suffix (codes "requests") id.text
          (Avoids-of_all is_name_byte b'/' (codes "requests") refl refl))
        (expiring_of-request id h))
