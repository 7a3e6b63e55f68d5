-- ===== src/Archive/Accumulator.antt =====
-- archive.py: `ArchiveBatch` and `ArchiveAccumulator`. Python's floats are a parameter, with the
-- operations that the code uses and no law. A batch's object id is an argument: the source takes it
-- from `secrets.token_hex`.
pub mod Sealed
use camvault.Prelude.{
  ℕ, ◌+◌, String, List, [], ◌∷◌, ◌++◌, Bool, ◌||◌, Option, none, some, max, leb, if◌then◌else◌,
  length,
}
use camvault.Live.Segment.{Segment, total_bytes}

pub record Floats (F : Type 0) : Type 0 where
  pub zero_seconds : F
  pub add_seconds : F → F → F
  -- `a >= b`
  pub at_least : F → F → Bool
  -- `max(0.001, a)`
  pub positive : F → F

module _ (F T : Type 0) where
  pub record Batch : Type 0 where
    pub camera_id : String
    pub segments : List (Segment F T)
    pub object_id : String

  pub record Accumulator : Type 0 where
    pub camera_id : String
    pub target_seconds : F
    pub max_bytes : ℕ
    pub segments : List (Segment F T)
    pub duration : F
    pub bytes : ℕ

module _ {F T : Type 0} where
  -- `ArchiveBatch.size_bytes`
  abbrev pub size_bytes : Batch F T → ℕ
  size_bytes b = total_bytes b.segments

module _ {F T : Type 0} (floats : Floats F) where
  open floats use {zero_seconds, add_seconds, at_least, positive}

  abbrev batch_of : Accumulator F T → String → List (Segment F T) → Option (Batch F T)
  batch_of a object_id [] = none
  batch_of a object_id (s ∷ ss) =
      some (record { camera_id = a.camera_id; segments = s ∷ ss; object_id = object_id })

  -- `pop`: an empty accumulator gives nothing and stays as it is.
  unfoldable pub pop : Accumulator F T → String → Option (Batch F T) × Accumulator F T
  pop a object_id = elim a.segments [
    | [] ↦ (none, a)
    | s ∷ ss ↦ (
      batch_of a object_id (s ∷ ss),
      record a { segments = []; duration = zero_seconds; bytes = 0 },
    )
  ]

  is_full : Accumulator F T → Bool
  is_full a = at_least a.duration a.target_seconds || leb a.max_bytes a.bytes

  unfoldable pub add : Accumulator F T → Segment F T → String → Option (Batch F T) × Accumulator F T
  unfolding is_full
  add a segment object_id =
      let a' = record a {
        segments = a.segments ++ segment ∷ [];
        duration = add_seconds a.duration segment.duration;
        bytes = a.bytes + length segment.payload;
      } in
      if is_full a' then pop a' object_id else (none, a')

  -- New targets seal what already crosses them; `pop` does nothing where there is no segment.
  unfoldable pub tune : Accumulator F T → F → ℕ → String → Option (Batch F T) × Accumulator F T
  unfolding is_full
  tune a seconds bytes object_id =
      let a' = record a { target_seconds = positive seconds; max_bytes = max 1 bytes } in
      if is_full a' then pop a' object_id else (none, a')
