-- ===== src/Logs/Examples.antt =====
-- A log of two records.
use camvault.Prelude.{◌≡◌, refl, [], ◌∷◌, arith}
use camvault.Logs.Recent.{Rendered, rendered, new_log, RecentLog, emit, snapshot}
use camvault.Logs.Recent.Poll.{IsLog, emit-IsLog, emit_all, entries_of, snapshot-emit_all}

abbrev line : Rendered
line = record { timestamp = "t"; level = "INFO"; logger = "a"; message = "m" }

abbrev log : RecentLog
log = new_log 2

log-IsLog : IsLog log
unfolding new_log
log-IsLog = record { bounded = omega arith; counted = tt }

after_one : IsLog (emit log (rendered line))
after_one = emit-IsLog log (rendered line) log-IsLog

ring : (emit log (rendered line)).max_records ≡ 2
unfolding emit new_log
ring = refl

snapshot-emit_all_example :
    let h = emit log (rendered line) in
    snapshot h.sequence 5 (emit_all h (line ∷ line ∷ [])) ≡ entries_of h.sequence (line ∷ line ∷ [])
snapshot-emit_all_example =
    snapshot-emit_all (emit log (rendered line)) (line ∷ line ∷ []) 5 after_one
      (omega (arith, ring)) (omega arith)
