-- ===== src/Live/Segment.antt =====
-- buffer.py: `LiveSegment`. `F` stands for Python's floats, `T` for its `datetime`.
use camvault.Prelude.{ℕ, ◌+◌, String, List, [], ◌∷◌, Bool, Option, length}

pub record Segment (F T : Type 0) : Type 0 where
  pub sequence : ℕ
  pub name : String
  pub payload : List ℕ
  pub created_at : T
  pub duration : F
  pub stream_id : Option String
  pub discontinuity_sequence : ℕ
  pub audio_rms_db : Option F
  pub audio_active : Bool

module _ {F T : Type 0} where
  -- `sum(len(segment.data) for segment in …)`
  abbrev pub total_bytes : List (Segment F T) → ℕ
  total_bytes [] = 0
  total_bytes (s ∷ ss) = length s.payload + total_bytes ss
