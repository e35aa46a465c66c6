-- ===== src/Graph/Cycle/Marks.antt =====
-- Lemmas on the mark array of `find_cycle` (swale/src/graph.rs).
use swale.Base.{
  ℕ, zero, suc, ◌+◌, ◌≤◌, ◌<◌, ◌≡◌, refl, some, List, [], ◌∷◌, get_elem?, length, ◌==◌, arith,
  if◌then◌else◌,
}
use swale.Graph.Cycle.{Mark, unvisited, active, done, set_mark}

pub get-set_mark :
    (m : List Mark) (i k : ℕ) (v : Mark) {old : Mark}
    → get_elem? m i ≡ some old
    → get_elem? (set_mark m i v) k ≡ (if k == i then some v else get_elem? m k)
get-set_mark [] i k v h = cc
get-set_mark (x ∷ m) zero zero v h = refl
get-set_mark (x ∷ m) zero (suc k) v h = ground arith
get-set_mark (x ∷ m) (suc i) zero v h = ground arith
get-set_mark (x ∷ m) (suc i) (suc k) v h = ground (arith, get-set_mark m i k v h)

pub length-set_mark : (m : List Mark) (i : ℕ) (v : Mark) → length (set_mark m i v) ≡ length m
length-set_mark [] i v = refl
length-set_mark (x ∷ m) zero v = refl
length-set_mark (x ∷ m) (suc i) v = omega (arith, length-set_mark m i v)

abbrev is_unvisited : Mark → ℕ
is_unvisited unvisited = 1
is_unvisited active = 0
is_unvisited done = 0

abbrev pub count_unvisited : List Mark → ℕ
count_unvisited [] = 0
count_unvisited (x ∷ m) = is_unvisited x + count_unvisited m

pub count-set_active :
    (m : List Mark) (i : ℕ)
    → get_elem? m i ≡ some unvisited
    → suc (count_unvisited (set_mark m i active)) ≡ count_unvisited m
count-set_active [] i h = cc
count-set_active (x ∷ m) zero h = ground arith
count-set_active (x ∷ m) (suc i) h = omega (arith, count-set_active m i h)

pub count-set_done :
    (m : List Mark) (i : ℕ)
    → get_elem? m i ≡ some active
    → count_unvisited (set_mark m i done) ≡ count_unvisited m
count-set_done [] i h = cc
count-set_done (x ∷ m) zero h = ground arith
count-set_done (x ∷ m) (suc i) h = omega (arith, count-set_done m i h)

pub count-le-length : (m : List Mark) → count_unvisited m ≤ length m
count-le-length [] = omega arith
count-le-length (unvisited ∷ m) = omega (arith, count-le-length m)
count-le-length (_ ∷ m) = omega (arith, count-le-length m)

pub get_elem?-lt :
    {A : Type 0} (m : List A) (i : ℕ) → i < length m → (x : A) × (get_elem? m i ≡ some x)
get_elem?-lt [] i h = absurd (omega arith)
get_elem?-lt (x ∷ m) zero h = (x, refl)
get_elem?-lt (x ∷ m) (suc i) h = get_elem?-lt m i (omega arith)

pub lt-of_get_elem? :
    {A : Type 0} (m : List A) (i : ℕ) {x : A} → get_elem? m i ≡ some x → i < length m
lt-of_get_elem? [] i h = cc
lt-of_get_elem? (x ∷ m) zero h = omega arith
lt-of_get_elem? (x ∷ m) (suc i) h = omega (arith, lt-of_get_elem? m i h)
