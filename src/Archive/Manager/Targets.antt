-- ===== src/Archive/Manager/Targets.antt =====
-- archive.py: the byte target of `_tune_accumulator`.
use camvault.Prelude.{ℕ, ◌*◌, ◌/◌, ◌≤◌, min, max, arith, Option, none, some}

abbrev pub mib : ℕ
mib = 1024 * 1024

-- `share` is the camera's part of the adaptive memory pool, where a memory sample is available.
smallest_candidate : ℕ → ℕ → Option ℕ → ℕ
smallest_candidate target_mb max_bytes none = min (target_mb * mib) (max 1 (max_bytes / 3))
smallest_candidate target_mb max_bytes (some share) =
    min (min (target_mb * mib) (max 1 (max_bytes / 3))) share

unfoldable pub target_bytes : ℕ → ℕ → ℕ → Option ℕ → ℕ
unfolding smallest_candidate
target_bytes target_mb max_bytes segment_bytes share =
    let floor =
      max segment_bytes (max (min mib max_bytes) (smallest_candidate target_mb max_bytes share)) in
    min max_bytes (max 1 floor)

-- The target of an accepted segment is never below the segment, nor above the camera's budget, and a
-- low memory sample cannot push it under one MiB where the budget has that.
pub target_bytes_bounds :
    (target_mb max_bytes segment_bytes : ℕ) (share : Option ℕ)
    → segment_bytes ≤ max_bytes
    → (segment_bytes ≤ target_bytes target_mb max_bytes segment_bytes share)
      × (target_bytes target_mb max_bytes segment_bytes share ≤ max_bytes)
      × (min mib max_bytes ≤ target_bytes target_mb max_bytes segment_bytes share)
unfolding target_bytes
target_bytes_bounds target_mb max_bytes segment_bytes none fits =
    (omega arith, omega arith, omega arith)
target_bytes_bounds target_mb max_bytes segment_bytes (some share) fits =
    (omega arith, omega arith, omega arith)
