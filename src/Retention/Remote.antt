-- ===== src/Retention/Remote.antt =====
-- storage.py, `WebDAVStorageBackend.retention`: the passes over the listed recordings and the result.
-- The list is the one after `records.sort`. The sizes from the configuration and the instant before
-- which a recording is too old are computed from floats; they are arguments, and so is the server's
-- free space, where it tells it. The listing itself, the sweep of abandoned partial files and the
-- cached total are not modelled.
pub mod Suffixes
pub mod Passes
pub mod Kept
pub mod Bounds
use camvault.Prelude.{
  ℕ, ◌+◌, ◌-◌, List, [], ◌∷◌, Bool, true, not, ◌&&◌, Option, none, some, if◌then◌else◌, ltb, ◌==◌,
}
use camvault.Retention.Sweep.{Recording, Deletions, Swept, sweep, delete_record, ◌>>=◌}
use camvault.Retention.Sweep.Prefix.{total_size}

-- No days, no size and no free space are no limit.
pub record Policy : Type 0 where
  pub retention_days : ℕ
  pub cutoff : ℕ
  pub max_bytes : ℕ
  pub min_free_bytes : ℕ

pub record Outcome : Type 0 where
  pub deletions : Deletions
  pub retained : List Recording
  pub remaining_bytes : ℕ
  pub free_bytes : Option ℕ

-- What the emergency reclaim itself deletes.
pub record Reclaimed : Type 0 where
  pub bytes : ℕ
  pub files : ℕ

-- What a pass leaves.
pub record Passed : Type 0 where
  pub deletions : Deletions
  pub kept : List Recording
  pub free : Option ℕ

abbrev pub no_deletions : Deletions
no_deletions = record { paths = []; files = 0; bytes = 0 }

below : Option ℕ → ℕ → Bool
below none files = true
below (some limit) files = ltb files limit

module _ (accepts : Recording → Bool) where
  keep_passed : Recording → Passed → Option Passed
  keep_passed r p = some (record p { kept = r ∷ p.kept })

  age_loop : ℕ → Deletions → Option ℕ → List Recording → Option Passed
  unfolding keep_passed
  age_loop cutoff d free [] = some (record { deletions = d; kept = []; free = free })
  age_loop cutoff d free (r ∷ rs) =
      let kept = age_loop cutoff d free rs >>= keep_passed r in
      if ltb r.start cutoff
      then delete_record accepts d r >>= (λ d'. age_loop cutoff d' free rs)
      else kept

  pub age_pass : Policy → Passed → Option Passed
  unfolding age_loop
  age_pass p x =
      if p.retention_days == 0 then some x else age_loop p.cutoff x.deletions x.free x.kept

  pub size_pass : Policy → Passed → Option Passed
  size_pass p x =
      if not (p.max_bytes == 0) && ltb p.max_bytes (total_size x.kept)
      then sweep accepts (λ total. ltb p.max_bytes total) (λ total r. total - r.size_bytes)
          (total_size x.kept) x.deletions x.kept
        >>= (λ w. some (record { deletions = w.deletions; kept = w.kept; free = x.free }))
      else some x

  free_sweep : ℕ → ℕ → Passed → Option Passed
  free_sweep min_free free x =
      if not (min_free == 0) && ltb free min_free
      then sweep accepts (λ f. ltb f min_free) (λ f r. f + r.size_bytes) free x.deletions x.kept
        >>= (λ w. some (record { deletions = w.deletions; kept = w.kept; free = some w.state }))
      else some x

  pub free_pass : Policy → Passed → Option Passed
  unfolding free_sweep
  free_pass p x = elim x.free [ none ↦ some x | some free ↦ free_sweep p.min_free_bytes free x ]

  abbrev wants_reclaim : ℕ → Option ℕ → Reclaimed → Bool
  wants_reclaim needed limit s = ltb s.bytes needed && below limit s.files

  abbrev reclaim_step : Reclaimed → Recording → Reclaimed
  reclaim_step s r = record { bytes = s.bytes + r.size_bytes; files = s.files + 1 }

  -- Oldest first, until enough bytes are gone or the limit of files is reached.
  unfoldable pub reclaim : ℕ → Option ℕ → Deletions → List Recording → Option (Swept Reclaimed)
  unfolding below
  reclaim needed limit d rs =
      sweep accepts (wants_reclaim needed limit) reclaim_step (record { bytes = 0; files = 0 }) d rs

  abbrev more_free : ℕ → Option ℕ → Option ℕ
  more_free bytes none = none
  more_free bytes (some f) = some (f + bytes)

  -- What was deleted before counts towards the bytes that the failed write asks for.
  pub emergency_pass : ℕ → Option ℕ → Passed → Option Passed
  unfolding reclaim
  emergency_pass min_delete limit x =
      let needed = min_delete - x.deletions.bytes in
      if needed == 0
      then some x
      else reclaim needed limit x.deletions x.kept >>= (λ w.
        some (record {
          deletions = w.deletions;
          kept = w.kept;
          free = more_free w.state.bytes x.free;
        }))

  outcome_of : Passed → Outcome
  outcome_of x = record {
    deletions = x.deletions;
    retained = x.kept;
    remaining_bytes = total_size x.kept;
    free_bytes = x.free;
  }

  unfoldable pub retention : Policy → Option ℕ → ℕ → Option ℕ → List Recording → Option Outcome
  unfolding age_pass size_pass free_pass emergency_pass outcome_of
  retention p free min_delete limit rs =
      age_pass p (record { deletions = no_deletions; kept = rs; free = free })
      >>= size_pass p
      >>= free_pass p
      >>= emergency_pass min_delete limit
      >>= (λ x. some (outcome_of x))
