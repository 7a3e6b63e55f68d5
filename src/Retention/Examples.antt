-- ===== src/Retention/Examples.antt =====
-- Two recordings, of which the older one is over the limit.
use camvault.Prelude.{
  Option, if◌then◌else◌, leb, ℕ, ◌-◌, ◌≡◌, refl, [], ◌∷◌, true, none, some, ltb, arith,
}
use camvault.Retention.Sweep.{Recording, Deletions, Swept, sweep, delete_record}
use camvault.Retention.Remote.{Policy, Outcome, Reclaimed, retention, reclaim}
use camvault.Retention.Remote.Kept.{Keeps, retention-Keeps}
use camvault.Retention.Remote.Bounds.{Bounded, reclaim-Bounded}
use camvault.Retention.Local.{Media}
use camvault.Retention.Sweep.Prefix.{Splits, sweep-Splits}

abbrev older : Recording
older = record { camera_id = "door"; relative_path = "a.ts"; start = 1; size_bytes = 7 }

abbrev newer : Recording
newer = record { camera_id = "door"; relative_path = "b.ts"; start = 2; size_bytes = 4 }

abbrev nothing : Deletions
nothing = record { paths = []; files = 0; bytes = 0 }

abbrev swept : Swept ℕ
swept = record {
  state = 4;
  deletions = record { paths = ("door", "a.ts") ∷ []; files = 1; bytes = 7 };
  kept = newer ∷ [];
}

runs :
    sweep
      (λ r. true)
      (λ total. ltb 5 total)
      (λ total r. total - r.size_bytes)
      11
      nothing
      (older ∷ newer ∷ [])
    ≡ some swept
unfolding sweep delete_record
runs = refl

sweep-Splits_example :
    Splits
      (λ r. true)
      (λ total. ltb 5 total)
      (λ total r. total - r.size_bytes)
      11
      nothing
      (older ∷ newer ∷ [])
      swept
sweep-Splits_example =
    sweep-Splits (λ r. true) (λ total. ltb 5 total) (λ total r. total - r.size_bytes) 11 nothing
      (older ∷ newer ∷ []) swept runs

abbrev policy : Policy
policy = record { retention_days = 1; cutoff = 2; max_bytes = 5; min_free_bytes = 0 }

abbrev outcome : Outcome
outcome = record {
  deletions = record { paths = ("door", "a.ts") ∷ []; files = 1; bytes = 7 };
  retained = newer ∷ [];
  remaining_bytes = 4;
  free_bytes = some 100;
}

ages : retention (λ r. true) policy (some 100) 6 none (older ∷ newer ∷ []) ≡ some outcome
unfolding retention sweep delete_record reclaim
ages = refl

retention-Keeps_example : Keeps (λ r. true) policy (older ∷ newer ∷ []) outcome
retention-Keeps_example =
    retention-Keeps (λ r. true) policy (some 100) 6 none 0 (older ∷ newer ∷ []) outcome
      (omega arith, (omega arith, tt)) ages

abbrev reclaimed : Swept Reclaimed
reclaimed = record {
  state = record { bytes = 7; files = 1 };
  deletions = record { paths = ("door", "a.ts") ∷ []; files = 1; bytes = 7 };
  kept = newer ∷ [];
}

reclaims : reclaim (λ r. true) 9 (some 1) nothing (older ∷ newer ∷ []) ≡ some reclaimed
unfolding reclaim sweep delete_record
reclaims = refl

reclaim-Bounded_example : Bounded (λ r. true) 9 (some 1) nothing (older ∷ newer ∷ []) reclaimed
reclaim-Bounded_example =
    reclaim-Bounded (λ r. true) 9 (some 1) nothing (older ∷ newer ∷ []) reclaimed reclaims

-- Two local files, of which the newer one cannot be deleted.
abbrev clip : Media
clip = record { path = "a.ts"; modified = some 5; size = some 7 }

abbrev open_clip : Media
open_clip = record { path = "b.ts"; modified = some 6; size = some 4 }

abbrev unlinks : Media → Option ℕ
unlinks f = elim f.modified [ none ↦ none | some time ↦ if leb time 5 then f.size else none ]
