-- ===== src/Logs/Recent.antt =====
-- logging_setup.py: `RecentLogHandler`, the bounded log in memory. Formatting and redaction are
-- arguments: what they make of a record, or that they raise. An exception is handled by
-- `handleError`, which keeps no state here.
pub mod Poll
use camvault.Prelude.{
  ℕ, ◌+◌, ◌-◌, String, List, [], ◌∷◌, ◌++◌, Bool, length, drop, ltb, ◌==◌, if◌then◌else◌,
}

-- The parts of a `LogEntry` that come from the record.
pub record Rendered : Type 0 where
  pub timestamp : String
  pub level : String
  pub logger : String
  pub message : String

pub record LogEntry : Type 0 where
  pub sequence : ℕ
  pub timestamp : String
  pub level : String
  pub logger : String
  pub message : String

-- The message cannot be formatted, the timestamp cannot, or both are there.
pub data Formatted : Type 0 where
  no_message : Formatted
  no_timestamp : Formatted
  rendered : Rendered → Formatted

pub record RecentLog : Type 0 where
  pub max_records : ℕ
  pub entries : List LogEntry
  pub sequence : ℕ

unfoldable pub new_log : ℕ → RecentLog
new_log max_records = record { max_records = max_records; entries = []; sequence = 0 }

abbrev pub entry_of : ℕ → Rendered → LogEntry
entry_of n r = record {
  sequence = n;
  timestamp = r.timestamp;
  level = r.level;
  logger = r.logger;
  message = r.message;
}

-- `deque.append` with `maxlen`.
push : ℕ → LogEntry → List LogEntry → List LogEntry
push limit e es = drop (length es + 1 - limit) (es ++ e ∷ [])

unfoldable pub emit : RecentLog → Formatted → RecentLog
unfolding push
emit h no_message = h
emit h no_timestamp = record h { sequence = h.sequence + 1 }
emit h (rendered r) = record h {
  sequence = h.sequence + 1;
  entries = push h.max_records (entry_of (h.sequence + 1) r) h.entries;
}

newer : ℕ → List LogEntry → List LogEntry
newer after [] = []
newer after (e ∷ es) = let rest = newer after es in if ltb after e.sequence then e ∷ rest else rest

-- `entries[-limit:]`, where `[-0:]` is the whole list.
last_entries : ℕ → List LogEntry → List LogEntry
last_entries limit es = if limit == 0 then es else drop (length es - limit) es

unfoldable pub snapshot : ℕ → ℕ → RecentLog → List LogEntry
unfolding newer last_entries
snapshot after limit h = last_entries limit (newer after h.entries)
