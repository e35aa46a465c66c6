-- ===== src/Partition/Keys.antt =====
-- The keys that `of_time` makes (swale/src/partition.rs).
use swale.Base.{
  ℕ, ◌≤◌, ◌≡◌, refl, sym, ap, ◌∙◌, true, inl, inr, Option, some, [], ◌∷◌, ◌++◌, Text, all,
  all-append, length, length-append, append-injective, arith, Option-cases, pad, pad_two, pad_four,
  read_from, read_from-pad, is_ascii_digit, codes,
}
use swale.Graph.{Partitioning, daily, hourly, unpartitioned}
use swale.Partition.{
  Partition, is_partition, is_partition_byte, new, CivilTime, date_key, time_key, of_time,
}

-- What the crate `chrono` documents of the fields of a date and time.
pub record IsCivil (c : CivilTime) : Type 0 where
  pub month : c.month ≤ 12
  pub day : c.day ≤ 31
  pub hour : c.hour ≤ 23

digits_partition : (t : Text) → all is_ascii_digit t ≡ true → all is_partition_byte t ≡ true
digits_partition [] h = refl
digits_partition (d ∷ ds) h = ground (arith, digits_partition ds)

module _ (c : CivilTime) (civil : IsCivil c) (four : c.year ≤ 9999) where
  date_digits : (length (date_key c) ≡ 8) × (all is_ascii_digit (date_key c) ≡ true)
  unfolding date_key
  date_digits =
      let open_y = pad_four c.year (omega arith) in
      let open_m = pad_two c.month (omega (arith, civil.month)) in
      let open_d = pad_two c.day (omega (arith, civil.day)) in
      let y = pad 4 c.year in
      let m = pad 2 c.month in
      let d = pad 2 c.day in
      (
        rw (length-append, length-append) (omega arith),
        rw (all-append, all-append, open_y.1, open_m.1, open_d.1),
      )

is_partition_of :
    (b : ℕ) (t : Text)
    → length (b ∷ t) ≤ 16
    → all is_partition_byte (b ∷ t) ≡ true
    → is_partition (b ∷ t) ≡ true
unfolding is_partition
is_partition_of b t h e = ground arith

key_of_digits :
    (t : Text)
    → 1 ≤ length t
    → length t ≤ 16
    → all is_partition_byte t ≡ true
    → is_partition t ≡ true
key_of_digits [] a b h = absurd (omega arith)
key_of_digits (c ∷ t) a b h = is_partition_of c t b h

time_key_valid :
    (p : Partitioning) (c : CivilTime)
    → IsCivil c
    → c.year ≤ 9999
    → is_partition (time_key p c).key ≡ true
unfolding time_key
time_key_valid daily c civil four =
    let (n, e) = date_digits c civil four in
    key_of_digits (date_key c) (omega arith) (omega arith) (digits_partition (date_key c) e)
time_key_valid hourly c civil four =
    let (n, e) = date_digits c civil four in
    let (n', e') = pad_two c.hour (omega (arith, civil.hour)) in
    let size = length-append (date_key c) (b'T' ∷ pad 2 c.hour) in
    key_of_digits (date_key c ++ (b'T' ∷ pad 2 c.hour)) (omega arith) (omega arith)
      (rw (all-append, digits_partition (date_key c) e, digits_partition (pad 2 c.hour) e'))
time_key_valid unpartitioned c civil four =
    key_of_digits (codes "none") (omega arith) (omega arith) refl

pad_injective : (w : ℕ) {m n : ℕ} → pad w m ≡ pad w n → m ≡ n
pad_injective w {m} {n} e = sym (read_from-pad w m) ∙ (ap (read_from 0) e ∙ read_from-pad w n)

tail_eq : {b c : ℕ} {s t : Text} → b ∷ s ≡ c ∷ t → s ≡ t
tail_eq e = ground arith

module _ (from_timestamp_millis : ℕ → Option CivilTime) where
  of_time-eq_some :
      (p : Partitioning) (ms : ℕ) (k : Partition)
      → of_time from_timestamp_millis p ms ≡ some k
      → (c : CivilTime) × (from_timestamp_millis ms ≡ some c) × (c.year ≤ 9999) × (k ≡ time_key p c)
  unfolding of_time
  of_time-eq_some p ms k h = elim (Option-cases (from_timestamp_millis ms)) [
    | inl e ↦ absurd (ground arith)
    | inr (c, e) ↦ (c, e, ground arith, ground arith)
  ]

  -- With civil fields in their documented ranges every key that `of_time` returns is a partition
  -- key: `Partition::new` accepts its text.
  pub new-of_time :
      (p : Partitioning) (ms : ℕ) (k : Partition)
      → ((t : ℕ) (c : CivilTime) → from_timestamp_millis t ≡ some c → IsCivil c)
      → of_time from_timestamp_millis p ms ≡ some k
      → new k.key ≡ some k
  unfolding new
  new-of_time p ms k civil h =
      let (c, e, four, eq) = of_time-eq_some p ms k h in
      let valid = time_key_valid p c (civil ms c e) four in rw (eq, valid)

  date_key_injective :
      (c d : CivilTime)
      → IsCivil c
      → IsCivil d
      → c.year ≤ 9999
      → d.year ≤ 9999
      → date_key c ≡ date_key d
      → (c.year ≡ d.year) × (c.month ≡ d.month) × (c.day ≡ d.day)
  unfolding date_key
  date_key_injective c d ic id y y' e =
      let year_len = (pad_four c.year (omega arith)).0 ∙ sym (pad_four d.year (omega arith)).0 in
      let (a, rest) = append-injective (pad 4 c.year) _ (pad 4 d.year) _ year_len e in
      let month_len =
        (pad_two c.month (omega (arith, ic.month))).0
        ∙ sym (pad_two d.month (omega (arith, id.month))).0 in
      let (b, r) = append-injective (pad 2 c.month) _ (pad 2 d.month) _ month_len rest in
      (pad_injective 4 a, pad_injective 2 b, pad_injective 2 r)

  -- With civil fields in their documented ranges, two times with the same hourly key have civil
  -- times that agree in year, month, day and hour.
  pub of_time-injective :
      (s t : ℕ) (j k : Partition)
      → ((t : ℕ) (c : CivilTime) → from_timestamp_millis t ≡ some c → IsCivil c)
      → of_time from_timestamp_millis hourly s ≡ some j
      → of_time from_timestamp_millis hourly t ≡ some k
      → j.key ≡ k.key
      → (c : CivilTime) × (d : CivilTime) × (from_timestamp_millis s ≡ some c)
        × (from_timestamp_millis t ≡ some d)
        × (c.year ≡ d.year)
        × (c.month ≡ d.month)
        × (c.day ≡ d.day)
        × (c.hour ≡ d.hour)
  unfolding time_key
  of_time-injective s t j k civil a b same =
      let (c, ec, yc, kc) = of_time-eq_some hourly s j a in
      let (d, ed, yd, kd) = of_time-eq_some hourly t k b in
      let ic = civil s c ec in
      let id = civil t d ed in
      let keys : date_key c ++ (b'T' ∷ pad 2 c.hour) ≡ date_key d ++ (b'T' ∷ pad 2 d.hour) =
        sym (ap (λ (p : Partition). p.key) kc) ∙ (same ∙ ap (λ (p : Partition). p.key) kd) in
      let n = (date_digits c ic yc).0 ∙ sym (date_digits d id yd).0 in
      let (dates, hours) = append-injective (date_key c) _ (date_key d) _ n keys in
      let (y, m, day) = date_key_injective c d ic id yc yd dates in
      (c, d, ec, ed, y, m, day, pad_injective 2 (tail_eq hours))
