-- ===== src/Live/Examples.antt =====
-- A window of two segments of at most ten bytes.
use camvault.Prelude.{ℕ, ◌≡◌, refl, [], ◌∷◌, false, none, some, arith}
use camvault.Live.Segment.{Segment}
use camvault.Live.Buffer.{LiveBuffer, new_buffer, add_segment, recent_limit}
use camvault.Live.Buffer.Valid.{IsValid, new_buffer-IsValid, add_segment-IsValid}
use camvault.Live.Buffer.Names.{IsRecent, add_segment_twice}

abbrev window : LiveBuffer ℕ ℕ
window = new_buffer 2 10 4

abbrev clip : ℕ → Segment ℕ ℕ
clip n = record {
  sequence = n;
  name = "a.ts";
  payload = 1 ∷ 2 ∷ 3 ∷ 4 ∷ 5 ∷ 6 ∷ [];
  created_at = 0;
  duration = 4;
  stream_id = none;
  discontinuity_sequence = 0;
  audio_rms_db = none;
  audio_active = false;
}

window-IsRecent : IsRecent (recent_limit window) window.recent
unfolding new_buffer
window-IsRecent = record { same = refl; distinct = tt; bounded = omega arith }

add_segment-IsValid_example : IsValid (add_segment window "a.ts" (1 ∷ 2 ∷ []) 7 (some "run")).1
add_segment-IsValid_example =
    add_segment-IsValid window (new_buffer-IsValid 2 10 4) "a.ts" (1 ∷ 2 ∷ []) 7 (some "run")

add_segment_twice_example :
    add_segment (add_segment window "a.ts" (1 ∷ []) 7 none).1 "a.ts" (2 ∷ []) 8 (some "run")
    ≡ (none, (add_segment window "a.ts" (1 ∷ []) 7 none).1)
add_segment_twice_example =
    add_segment_twice window window-IsRecent "a.ts" (1 ∷ []) (2 ∷ []) 7 8 none (some "run")
