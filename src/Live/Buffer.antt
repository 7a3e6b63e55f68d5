-- ===== src/Live/Buffer.antt =====
-- buffer.py: `LiveBuffer`. The ordered dictionaries are lists in insertion order, the deque of
-- recent names is a list with the oldest first, and the set beside it is a list of its members.
-- The time of arrival is an argument.
pub mod Valid
pub mod Names
use camvault.Prelude.{
  ℕ, zero, suc, ◌+◌, ◌-◌, ◌*◌, ◌≡◌, String, List, [], ◌∷◌, ◌++◌, Bool, true, false, not, ◌||◌, ◌&&◌,
  Option, none, some, max, ltb, ◌==◌, if◌then◌else◌, length, str_eq,
}
use camvault.Live.Segment.{Segment}

pub contains : String → List String → Bool
contains name [] = false
contains name (x ∷ xs) = str_eq x name || contains name xs

-- `set.discard`, on a list of its members.
discard : String → List String → List String
discard name [] = []
discard name (x ∷ xs) = if str_eq x name then discard name xs else x ∷ discard name xs

set_add : String → List String → List String
unfolding contains
set_add name xs = if contains name xs then xs else xs ++ name ∷ []

pub record Recent : Type 0 where
  pub names : List String
  pub members : List String

drop_oldest : List String → List String → Recent
unfolding discard
drop_oldest [] members = record { names = []; members = members }
drop_oldest (old ∷ names) members = record { names = names; members = discard old members }

-- `_remember_name`; `limit` is the deque's `maxlen`.
unfoldable pub remember_name : ℕ → String → Recent → Recent
unfolding drop_oldest set_add
remember_name limit name r =
    let kept = if length r.names == limit then drop_oldest r.names r.members else r in
    record { names = kept.names ++ name ∷ []; members = set_add name kept.members }

module _ (F T : Type 0) where
  pub record LiveBuffer : Type 0 where
    pub window_segments : ℕ
    pub max_bytes : ℕ
    pub default_duration : F
    pub segments : List (Segment F T)
    pub bytes : ℕ
    pub next_sequence : ℕ
    pub duration_hints : List (String × F)
    pub recent : Recent
    pub current_stream_id : Option String
    pub discontinuity_count : ℕ

-- `dict.pop(name, default)` and what is left.
pop_hint : {F : Type 0} → F → String → List (String × F) → F × List (String × F)
pop_hint default name [] = (default, [])
pop_hint default name ((key, value) ∷ hints) =
    let (found, rest) = pop_hint default name hints in
    if str_eq key name then (value, hints) else (found, (key, value) ∷ rest)

-- A stream other than the current one is a discontinuity; no stream changes nothing.
stream_change : Option String → Option String → ℕ → Option String × ℕ
stream_change current none count = (current, count)
stream_change none (some stream) count = (some stream, count)
stream_change (some current) (some stream) count =
    (some stream, if str_eq stream current then count else count + 1)

module _ {F T : Type 0} where
  abbrev pub recent_limit : LiveBuffer F T → ℕ
  recent_limit b = max 64 (b.window_segments * 8)

  unfoldable pub new_buffer : ℕ → ℕ → F → LiveBuffer F T
  new_buffer window_segments max_bytes default_duration = record {
    window_segments = window_segments;
    max_bytes = max_bytes;
    default_duration = default_duration;
    segments = [];
    bytes = 0;
    next_sequence = 0;
    duration_hints = [];
    recent = record { names = []; members = [] };
    current_stream_id = none;
    discontinuity_count = 0;
  }

  has_segment : String → List (Segment F T) → Bool
  has_segment name [] = false
  has_segment name (s ∷ ss) = str_eq s.name name || has_segment name ss

  -- `_evict`: the rest of the window and its bytes, after `popitem(last=False)` while it is too big.
  unfoldable pub evict : ℕ → ℕ → List (Segment F T) → ℕ → List (Segment F T) × ℕ
  evict window limit [] bytes = ([], bytes)
  evict window limit (s ∷ ss) bytes =
      let popped = evict window limit ss (bytes - length s.payload) in
      if ltb window (length (s ∷ ss)) || ltb limit bytes then popped else (s ∷ ss, bytes)

  segment_of : LiveBuffer F T → F → String → List ℕ → T → Option String → ℕ → Segment F T
  segment_of b duration name payload created_at stream_id discontinuity = record {
    sequence = b.next_sequence;
    name = name;
    payload = payload;
    created_at = created_at;
    duration = duration;
    stream_id = stream_id;
    discontinuity_sequence = discontinuity;
    audio_rms_db = none;
    audio_active = false;
  }

  accept : LiveBuffer F T → String → List ℕ → T → Option String → Segment F T × LiveBuffer F T
  unfolding evict pop_hint stream_change segment_of remember_name
  accept b name payload created_at stream_id =
      let (duration, hints) = pop_hint b.default_duration name b.duration_hints in
      let (stream, count) = stream_change b.current_stream_id stream_id b.discontinuity_count in
      let segment = segment_of b duration name payload created_at stream_id count in
      let (kept, bytes) =
        evict b.window_segments b.max_bytes (b.segments ++ segment ∷ [])
          (b.bytes + length payload) in
      (
        segment,
        record b {
          segments = kept;
          bytes = bytes;
          next_sequence = b.next_sequence + 1;
          duration_hints = hints;
          recent = remember_name (recent_limit b) name b.recent;
          current_stream_id = stream;
          discontinuity_count = count;
        },
      )

  unfoldable pub add_segment :
      LiveBuffer F T → String → List ℕ → T → Option String → Option (Segment F T) × LiveBuffer F T
  unfolding accept has_segment contains
  add_segment b name payload created_at stream_id =
      if has_segment name b.segments || contains name b.recent.members
      then (none, b)
      else let (segment, b') = accept b name payload created_at stream_id in (some segment, b')

  unfoldable pub get : LiveBuffer F T → String → Option (Segment F T)
  get b name = find name b.segments
    where
      find : String → List (Segment F T) → Option (Segment F T)
      find name [] = none
      find name (s ∷ ss) = if str_eq s.name name then some s else find name ss
