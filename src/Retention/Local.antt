-- ===== src/Retention/Local.antt =====
-- retention.py: `apply_retention` over the listed media files, oldest first, with `_delete_media`.
-- What the file system answers is an argument: a file's time and size where they can be read, how
-- many bytes its deletion frees (`none` where it fails, as it then does throughout the run), and the
-- free space before the third pass.
-- The listing, stale partial files, empty directories and the free space that is reported at the end
-- are not modelled.
pub mod Shrinks
pub mod Verdicts
pub mod Totals
pub mod Passes
pub mod Kept
use camvault.Prelude.{
  ℕ, ◌+◌, ◌-◌, String, List, [], ◌∷◌, Bool, true, false, not, ◌&&◌, ◌||◌, Option, none, some,
  if◌then◌else◌, ltb, leb, ◌==◌,
}
use camvault.Retention.Remote.{Policy}

pub record Media : Type 0 where
  pub path : String
  pub modified : Option ℕ
  pub size : Option ℕ

pub record Counts : Type 0 where
  pub files : ℕ
  pub bytes : ℕ

-- The running state of the passes: what was deleted, the files left, and the total of their sizes.
pub record Progress : Type 0 where
  pub deleted : Counts
  pub files : List Media
  pub total : ℕ

module _ (unlinks : Media → Option ℕ) where
  -- `_delete_media`
  unfoldable pub delete_media : Media → ℕ
  delete_media f = elim (unlinks f) [ none ↦ 0 | some size ↦ size ]

  unfoldable pub count : ℕ → Counts → Counts
  count size c = if size == 0 then c else record { files = c.files + 1; bytes = c.bytes + size }

  unfoldable pub age_files : ℕ → Counts → List Media → Counts × List Media
  unfolding count delete_media
  age_files cutoff c [] = (c, [])
  age_files cutoff c (f ∷ fs) = elim f.modified [
    | none ↦ age_files cutoff c fs
    | some time ↦
        let (c', kept) = age_files cutoff c fs in
        if ltb time cutoff then age_files cutoff (count (delete_media f) c) fs else (c', f ∷ kept)
  ]

  unfoldable pub total_of : List Media → ℕ
  total_of [] = 0
  total_of (f ∷ fs) = elim f.size [ none ↦ total_of fs | some size ↦ size + total_of fs ]

  module _ {S : Type 0} (reached : S → Bool) (freed : ℕ → S → S) where
    -- `for path in list(files)`: stop once enough is freed; a file that stays is no progress.
    unfoldable pub shrink : S → Counts → ℕ → List Media → S × Progress
    unfolding count delete_media
    shrink s c total [] = (s, record { deleted = c; files = []; total = total })
    shrink s c total (f ∷ fs) =
        let size = delete_media f in
        let (s', p) = shrink s c total fs in
        let next = shrink (freed size s) (count size c) (total - size) fs in
        if reached s
        then (s, record { deleted = c; files = f ∷ fs; total = total })
        else if size == 0
        then (s', record p { files = f ∷ p.files })
        else next

  pub age_pass : Policy → List Media → Progress
  unfolding age_files total_of
  age_pass p fs =
      let (c, kept) =
        if p.retention_days == 0
        then (record { files = 0; bytes = 0 }, fs)
        else age_files p.cutoff (record { files = 0; bytes = 0 }) fs in
      record { deleted = c; files = kept; total = total_of kept }

  pub size_pass : Policy → Progress → Progress
  unfolding shrink
  size_pass p x =
      if not (p.max_bytes == 0) && ltb p.max_bytes x.total
      then (shrink (λ total. leb total p.max_bytes) (λ size total. total - size) x.total x.deleted
          x.total x.files).1
      else x

  pub free_pass : Policy → ℕ → Progress → Progress
  unfolding shrink
  free_pass p free x =
      if not (p.min_free_bytes == 0) && ltb free p.min_free_bytes
      then (shrink (λ f. leb p.min_free_bytes f) (λ size f. f + size) free x.deleted x.total
          x.files).1
      else x

  at_limit : Option ℕ → ℕ → Bool
  at_limit none files = false
  at_limit (some limit) files = leb limit files

  pub emergency_pass : ℕ → Option ℕ → Progress → Progress
  unfolding shrink at_limit count
  emergency_pass min_delete limit x =
      let needed = min_delete - x.deleted.bytes in
      if needed == 0
      then x
      else (shrink (λ c. leb needed c.bytes || at_limit limit c.files) count
          (record { files = 0; bytes = 0 }) x.deleted x.total x.files).1

  -- `free` is the space before the third pass.
  unfoldable pub apply_retention : Policy → ℕ → ℕ → Option ℕ → List Media → Progress
  unfolding age_pass size_pass free_pass emergency_pass
  apply_retention p free min_delete limit fs =
      emergency_pass min_delete limit (free_pass p free (size_pass p (age_pass p fs)))
