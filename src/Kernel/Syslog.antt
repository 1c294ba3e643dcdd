-- ===== src/Kernel/Syslog.antt =====
-- kernel/syslog.c: the ring of log entries. An entry comes with its tick and with the tag and the
-- message as they are stored; a dump is the list of the entries that it prints.
pub mod Newest
use oxalyn.Base.{
  ℕ, zero, suc, ◌+◌, ◌-◌, ◌%◌, List, [], ◌∷◌, Bool, true, false, if◌then◌else◌, ltb, leb, update,
}
use oxalyn.Base.Int.{ℤ, pos, negsuc}

abbrev pub syslog_max_entries : ℕ
syslog_max_entries = 128

abbrev pub log_panic : ℕ
log_panic = 4

pub record SyslogEntry : Type 0 where
  pub tick : ℕ
  pub level : ℕ
  pub tag : List ℕ
  pub msg : List ℕ

-- The total is below 2^31.
pub record Syslog : Type 0 where
  pub buf : ℕ → SyslogEntry
  pub head : ℕ
  pub total : ℕ

abbrev pub clamp : SyslogEntry → SyslogEntry
clamp e = record e { level = if ltb log_panic e.level then log_panic else e.level }

unfoldable pub klog : Syslog → SyslogEntry → Syslog
klog s e = record {
  buf = update s.buf s.head (clamp e);
  head = (s.head + 1) % syslog_max_entries;
  total = s.total + 1;
}

-- The entry given is the one that says how many slots there are.
unfoldable pub syslog_init : Syslog → SyslogEntry → Syslog
unfolding klog
syslog_init s first = klog (record s { head = 0; total = 0 }) first

unfoldable pub syslog_count : Syslog → ℕ
syslog_count s = if ltb s.total syslog_max_entries then s.total else syslog_max_entries

-- The `left` entries from the one `i` places behind `start` on.
unfoldable pub walk : (ℕ → SyslogEntry) → ℕ → ℕ → ℕ → List SyslogEntry
walk buf start i zero = []
walk buf start i (suc left) = buf ((start + i) % syslog_max_entries) ∷ walk buf start (i + 1) left

abbrev pub oldest : Syslog → ℕ
oldest s = if leb s.total syslog_max_entries then 0 else s.head

unfoldable pub syslog_dump : Syslog → List SyslogEntry
unfolding syslog_count walk
syslog_dump s = walk s.buf (oldest s) 0 (syslog_count s)

-- `((head - n) % MAX + MAX) % MAX` with the remainder of C, which has the sign of `head - n`.
abbrev pub last_start : ℕ → ℕ → ℕ
last_start head n =
    if leb n head
    then ((head - n) % syslog_max_entries + syslog_max_entries) % syslog_max_entries
    else (syslog_max_entries - (n - head) % syslog_max_entries) % syslog_max_entries

unfoldable pub syslog_dump_last : Syslog → ℤ → List SyslogEntry
unfolding syslog_count walk
syslog_dump_last s (negsuc k) = []
syslog_dump_last s (pos k) =
    let n = if ltb (syslog_count s) k then syslog_count s else k in
    walk s.buf (last_start s.head n) 0 n

unfoldable pub at_least : ℕ → List SyslogEntry → List SyslogEntry
at_least min_level [] = []
at_least min_level (e ∷ es) =
    let rest = at_least min_level es in if leb min_level e.level then e ∷ rest else rest

unfoldable pub syslog_dump_level : Syslog → ℕ → List SyslogEntry
unfolding at_least syslog_count walk
syslog_dump_level s min_level = at_least min_level (walk s.buf (oldest s) 0 (syslog_count s))
