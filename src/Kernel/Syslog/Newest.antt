-- ===== src/Kernel/Syslog/Newest.antt =====
-- What the dumps of the log print, after any number of entries.
use oxalyn.Base.{
  ℕ, zero, suc, ◌+◌, ◌-◌, ◌%◌, ◌≤◌, ◌<◌, ◌≡◌, ◌≢◌, refl, sym, ap, ap, ◌∙◌, min, List, [], ◌∷◌,
  if◌then◌else◌, ltb, leb, update_self, update-ne, inl, inr, Bool-cases, arith, ◌==◌, ==_iff,
  leb→le,
}
use oxalyn.Base.Int.{pos}
use oxalyn.Kernel.Syslog.{
  SyslogEntry, Syslog, syslog_max_entries, clamp, klog, syslog_init, syslog_count, walk, oldest,
  syslog_dump, last_start, syslog_dump_last, syslog_dump_level, at_least,
}

-- The log after syslog_init and `n` more entries, of the sequence `e`.
unfoldable pub logged : Syslog → (ℕ → SyslogEntry) → ℕ → Syslog
unfolding klog syslog_init
logged s e zero = syslog_init s (e 0)
logged s e (suc n) = klog (logged s e n) (e (suc n))

-- The entries of the sequence from `i` on, `left` of them, as they are stored.
unfoldable pub stored : (ℕ → SyslogEntry) → ℕ → ℕ → List SyslogEntry
stored e i zero = []
stored e i (suc left) = clamp (e i) ∷ stored e (i + 1) left

record Holds (s : Syslog) (e : ℕ → SyslogEntry) (n : ℕ) : Type 0 where
  total_is : s.total ≡ suc n
  head_is : s.head ≡ suc n % syslog_max_entries
  kept : (k : ℕ) → k ≤ n → n < k + syslog_max_entries → s.buf (k % syslog_max_entries) ≡ clamp (e k)

klog-kept :
    (s : Syslog) (e : ℕ → SyslogEntry) (n : ℕ) (k : ℕ)
    → Holds s e n
    → k ≤ suc n
    → suc n < k + syslog_max_entries
    → (klog s (e (suc n))).buf (k % syslog_max_entries) ≡ clamp (e k)
unfolding klog
klog-kept s e n k v h l = elim (Bool-cases (k == suc n)) [
  | inl q ↦
      let eq = (==_iff k (suc n)).0 q in
      rw (v.head_is, eq) (update_self s.buf (suc n % syslog_max_entries) (clamp (e (suc n))))
  | inr q ↦
      let lt : k < suc n = ground arith in
      let ne : k % syslog_max_entries ≢ s.head = λ w. omega (arith, w ∙ v.head_is) in
      update-ne s.buf s.head (clamp (e (suc n))) (k % syslog_max_entries) ne
      ∙ v.kept k (omega arith) (omega arith)
]

logged-Holds : (s : Syslog) (e : ℕ → SyslogEntry) (n : ℕ) → Holds (logged s e n) e n
unfolding logged klog syslog_init
logged-Holds s e zero = record {
  total_is = refl;
  head_is = refl;
  kept = λ k h l. let z : k ≡ 0 = omega arith in rw z (update_self s.buf 0 (clamp (e 0)));
}
logged-Holds s e (suc n) =
    let v = logged-Holds s e n in
    record {
      total_is = ap (λ x. x + 1) v.total_is ∙ omega arith;
      head_is = omega (arith, v.head_is);
      kept = λ k. klog-kept (logged s e n) e n k v;
    }

walk_from :
    (buf : ℕ → SyslogEntry) (e : ℕ → SyslogEntry) (start base i left : ℕ)
    → ((j : ℕ) → j < i + left → buf ((start + j) % syslog_max_entries) ≡ clamp (e (base + j)))
    → walk buf start i left ≡ stored e (base + i) left
unfolding walk stored
walk_from buf e start base i zero h = refl
walk_from buf e start base i (suc left) h =
    let eq : base + i + 1 ≡ base + (i + 1) = omega arith in
    rw (h i (omega arith), eq)
      (ap (λ r. clamp (e (base + i)) ∷ r)
        (walk_from buf e start base (i + 1) left (λ j l. h j (omega arith))))

-- The last `m` of the entries kept.
walk_last :
    (s : Syslog) (e : ℕ → SyslogEntry) (n m start : ℕ)
    → Holds s e n
    → m ≤ syslog_max_entries
    → m ≤ suc n
    → start % syslog_max_entries ≡ (suc n - m) % syslog_max_entries
    → walk s.buf start 0 m ≡ stored e (suc n - m) m
walk_last s e n m start v a b c =
    let z : suc n - m ≡ suc n - m + 0 = omega arith in
    let place : (j : ℕ)
        → j < 0 + m
        → s.buf ((start + j) % syslog_max_entries) ≡ clamp (e (suc n - m + j)) =
      λ j l.
        let same_place : (start + j) % syslog_max_entries ≡ (suc n - m + j) % syslog_max_entries =
          omega arith in
        rw same_place (v.kept (suc n - m + j) (omega arith) (omega arith)) in
    walk_from s.buf e start (suc n - m) 0 m place ∙ ap (λ x. stored e x m) (sym z)

abbrev recent : ℕ → ℕ
recent n = min (suc n) syslog_max_entries

count_is : (s : Syslog) (e : ℕ → SyslogEntry) (n : ℕ) → Holds s e n → syslog_count s ≡ recent n
unfolding syslog_count
count_is s e n v = rw v.total_is (ground arith)

oldest_is :
    (s : Syslog) (e : ℕ → SyslogEntry) (n : ℕ)
    → Holds s e n
    → oldest s % syslog_max_entries ≡ (suc n - recent n) % syslog_max_entries
oldest_is s e n v = elim (Bool-cases (leb (suc n) syslog_max_entries)) [
  | inl b ↦
      let small : suc n ≤ syslog_max_entries = leb→le (suc n) syslog_max_entries b in
      rw (v.total_is, b) (omega arith)
  | inr b ↦
      let large : syslog_max_entries < suc n = ground arith in
      rw (v.total_is, b) (omega (arith, v.head_is))
]

last_start_is :
    (n m h : ℕ)
    → m ≤ recent n
    → h ≡ suc n % syslog_max_entries
    → last_start h m % syslog_max_entries ≡ (suc n - m) % syslog_max_entries
last_start_is n m h a e = elim (Bool-cases (leb m h)) [
  | inl b ↦ let le : m ≤ h = leb→le m h b in rw b (omega arith)
  | inr b ↦ let gt : h < m = ground arith in rw b (omega arith)
]

-- After syslog_init and any number of further entries, syslog_count is the number of entries, the
-- one of syslog_init included, or 128, the smaller of the two; syslog_dump prints that many of the entries last made, in the order in which
-- they were made; syslog_dump_level prints those among them whose level is at least the one given;
-- and syslog_dump_last prints the last `k` of them, or all if they are fewer. Levels above that of a
-- panic have become that one.
pub syslog_dumps :
    (s : Syslog) (e : ℕ → SyslogEntry) (n k min_level : ℕ)
    → (syslog_count (logged s e n) ≡ recent n)
      × (syslog_dump (logged s e n) ≡ stored e (suc n - recent n) (recent n))
      × (syslog_dump_level (logged s e n) min_level
          ≡ at_least min_level (stored e (suc n - recent n) (recent n)))
      × (syslog_dump_last (logged s e n) (pos k)
          ≡ stored e (suc n - min k (recent n)) (min k (recent n)))
unfolding syslog_dump syslog_dump_level syslog_dump_last
syslog_dumps s e n k min_level =
    let v = logged-Holds s e n in
    let s' = logged s e n in
    let c = count_is s' e n v in
    let dump : walk s'.buf (oldest s') 0 (recent n) ≡ stored e (suc n - recent n) (recent n) =
      walk_last s' e n (recent n) (oldest s') v (omega arith) (omega arith) (oldest_is s' e n v) in
    let m : (if ltb (recent n) k then recent n else k) ≡ min k (recent n) = ground arith in
    (
      c,
      rw c dump,
      rw c (ap (at_least min_level) dump),
      rw (c, m)
          (walk_last s' e n (min k (recent n)) (last_start s'.head (min k (recent n))) v
            (omega arith) (omega arith)
            (last_start_is n (min k (recent n)) s'.head (omega arith) v.head_is)),
    )
