-- ===== src/Retention/Local/Kept.antt =====
-- What a whole run over local files leaves.
use camvault.Prelude.{ℕ, ◌-◌, ◌≤◌, ◌≡◌, ◌⊎◌, List, Bool, ◌||◌, Option, some, leb, All}
use camvault.Retention.Remote.{Policy}
use camvault.Retention.Local.{Media, Counts, Progress, at_limit, total_of}
use camvault.Retention.Local.Verdicts.{Judged}
use camvault.Retention.Local.Passes.{no_counts}
use camvault.Retention.Local.Shrinks.{Stays}

abbrev pub Young : ℕ → Media → Type 0
Young cutoff f = (time : ℕ) × (f.modified ≡ some time) × (cutoff ≤ time)

module _ (unlinks : Media → Option ℕ) where
  module _ (p : Policy) where
    Sized : Progress → Type 0
    Sized x = (p.max_bytes ≡ 0) ⊎ (x.total ≤ p.max_bytes) ⊎ All (Stays unlinks) x.files

  module _ (min_delete : ℕ) (limit : Option ℕ) (x : Progress) where
    abbrev enough_reclaimed : Counts → Bool
    enough_reclaimed c =
        leb (min_delete - x.deleted.bytes) c.bytes || at_limit unlinks limit c.files

  -- What a run leaves of the files.
  pub record Left (p : Policy) (fs : List Media) (r : Progress) : Type 0 where
    pub judged : Judged unlinks p.cutoff fs r.files no_counts r.deleted
    pub young : (p.retention_days ≡ 0) ⊎ All (Young p.cutoff) r.files
    pub counted : r.total ≡ total_of unlinks r.files
    pub small :
        (p.max_bytes ≡ 0) ⊎ (total_of unlinks r.files ≤ p.max_bytes) ⊎ All (Stays unlinks) r.files
