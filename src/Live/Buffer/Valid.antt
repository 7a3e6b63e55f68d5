-- ===== src/Live/Buffer/Valid.antt =====
-- The window's invariant, what eviction keeps, and which names are refused.
use camvault.Prelude.{
  ℕ, ◌+◌, ◌-◌, ◌≤◌, ◌<◌, ◌≡◌, ◌⊎◌, inl, inr, refl, ap, subst, String, List, [], ◌∷◌, ◌++◌, true,
  ◌||◌, Option, none, some, arith, ltb, length, Bool-cases,
}
use camvault.Live.Segment.{Segment, total_bytes}
use camvault.Live.Buffer.{
  LiveBuffer, contains, evict, accept, add_segment, pop_hint, stream_change, segment_of, new_buffer,
  has_segment,
}

stream_change-le :
    (current stream : Option String) (count : ℕ) → count ≤ (stream_change current stream count).1
unfolding stream_change
stream_change-le none none count = omega arith
stream_change-le (some c) none count = omega arith
stream_change-le none (some s) count = omega arith
stream_change-le (some c) (some s) count = ground arith

module _ {F T : Type 0} where
  -- Sequence numbers rise along the window, and discontinuities do not fall.
  abbrev pub Ascending : ℕ → ℕ → List (Segment F T) → Type 0
  Ascending seq disc [] = Unit {0}
  Ascending seq disc (s ∷ ss) =
      (seq ≤ s.sequence)
      × (disc ≤ s.discontinuity_sequence)
      × Ascending (s.sequence + 1) s.discontinuity_sequence ss

  abbrev pub Below : ℕ → ℕ → List (Segment F T) → Type 0
  Below seq disc [] = Unit {0}
  Below seq disc (s ∷ ss) =
      (s.sequence < seq) × (s.discontinuity_sequence ≤ disc) × Below seq disc ss

  pub record IsValid (b : LiveBuffer F T) : Type 0 where
    pub counted : b.bytes ≡ total_bytes b.segments
    pub few : length b.segments ≤ b.window_segments
    pub small : b.bytes ≤ b.max_bytes
    pub ascending : Ascending 0 0 b.segments
    pub below : Below b.next_sequence b.discontinuity_count b.segments

  total_bytes-append :
      (xs ys : List (Segment F T)) → total_bytes (xs ++ ys) ≡ total_bytes xs + total_bytes ys
  total_bytes-append [] ys = omega arith
  total_bytes-append (x ∷ xs) ys = omega (arith, total_bytes-append xs ys)

  over :
      (s : Segment F T) (ss : List (Segment F T)) (bytes window limit : ℕ)
      (all : List (Segment F T))
      → bytes ≡ total_bytes (s ∷ ss)
      → s ∷ ss ≡ all
      → (ltb window (length (s ∷ ss)) || ltb limit bytes) ≡ true
      → (window < length all) ⊎ (limit < total_bytes all)
  over s ss bytes window limit all e same big = rw (← same) (ground arith)

  -- Each popped segment was popped from a window that was over one of its limits.
  abbrev pub Popped : ℕ → ℕ → List (Segment F T) → List (Segment F T) → Type 0
  Popped window limit [] kept = Unit {0}
  Popped window limit (s ∷ gone) kept =
      ((window < length (s ∷ gone ++ kept)) ⊎ (limit < total_bytes (s ∷ gone ++ kept)))
      × Popped window limit gone kept

  -- Eviction leaves a suffix within both limits, and pops nothing that would still fit.
  pub record Evicted (window limit : ℕ) (ss kept : List (Segment F T)) : Type 0 where
    pub gone : List (Segment F T)
    pub suffix : ss ≡ gone ++ kept
    pub few : length kept ≤ window
    pub small : total_bytes kept ≤ limit
    pub needed : Popped window limit gone kept

  -- From an exact byte count, eviction leaves an exact byte count and a suffix of the window within
  -- both limits, and each popped segment was popped from a window over one of them.
  pub evict-Evicted :
      (window limit : ℕ) (ss : List (Segment F T)) (bytes : ℕ)
      → bytes ≡ total_bytes ss
      → ((evict window limit ss bytes).1 ≡ total_bytes (evict window limit ss bytes).0)
        × Evicted window limit ss (evict window limit ss bytes).0
  unfolding evict
  evict-Evicted window limit [] bytes e =
      (e, record { gone = []; suffix = refl; few = omega arith; small = omega arith; needed = tt })
  evict-Evicted window limit (s ∷ ss) bytes e =
      elim (Bool-cases (ltb window (length (s ∷ ss)) || ltb limit bytes)) [
        | inl big ↦
            let (same, r) =
              evict-Evicted window limit ss (bytes - length s.payload) (omega arith) in
            rw big (
              same,
              record {
                gone = s ∷ r.gone;
                suffix = ap (λ t. s ∷ t) r.suffix;
                few = r.few;
                small = r.small;
                needed =
                    (over s ss bytes window limit _ e (ap (λ t. s ∷ t) r.suffix) big, r.needed);
              },
            )
        | inr fits ↦ rw fits (
          e,
          record {
            gone = [];
            suffix = refl;
            few = ground arith;
            small = ground arith;
            needed = tt;
          },
        )
      ]

  Ascending-drop :
      (gone kept : List (Segment F T)) (seq disc : ℕ)
      → Ascending seq disc (gone ++ kept)
      → Ascending 0 0 kept
  Ascending-drop [] [] seq disc a = tt
  Ascending-drop [] (s ∷ ss) seq disc a = (omega arith, omega arith, a.2)
  Ascending-drop (g ∷ gone) kept seq disc a = Ascending-drop gone kept _ _ a.2

  Below-drop :
      (gone kept : List (Segment F T)) (seq disc : ℕ)
      → Below seq disc (gone ++ kept)
      → Below seq disc kept
  Below-drop [] kept seq disc b = b
  Below-drop (g ∷ gone) kept seq disc b = Below-drop gone kept seq disc b.2

  Ascending-snoc :
      (ss : List (Segment F T)) (s : Segment F T) (low disc seq count : ℕ)
      → Ascending low disc ss
      → Below seq count ss
      → low ≤ seq
      → disc ≤ count
      → s.sequence ≡ seq
      → count ≤ s.discontinuity_sequence
      → Ascending low disc (ss ++ s ∷ [])
  Ascending-snoc [] s low disc seq count a b h k e f = (omega arith, omega arith, tt)
  Ascending-snoc (x ∷ ss) s low disc seq count a b h k e f =
      (a.0, a.1, Ascending-snoc ss s _ _ seq count a.2 b.2 (omega (arith, b.0)) b.1 e f)

  Below-snoc :
      (ss : List (Segment F T)) (s : Segment F T) (seq count seq' count' : ℕ)
      → Below seq count ss
      → seq ≤ seq'
      → count ≤ count'
      → s.sequence < seq'
      → s.discontinuity_sequence ≤ count'
      → Below seq' count' (ss ++ s ∷ [])
  Below-snoc [] s seq count seq' count' b h k e f = (e, f, tt)
  Below-snoc (x ∷ ss) s seq count seq' count' b h k e f =
      (omega (arith, b.0), omega (arith, b.1), Below-snoc ss s seq count seq' count' b.2 h k e f)

  module _ (b : LiveBuffer F T) (v : IsValid b) (name : String) (payload : List ℕ) (at : T)
      (stream : Option String) where
    accept-IsValid : IsValid (accept b name payload at stream).1
    unfolding accept segment_of
    accept-IsValid =
        let (found, hints) = pop_hint b.default_duration name b.duration_hints in
        let (current, count) = stream_change b.current_stream_id stream b.discontinuity_count in
        let grown : b.discontinuity_count ≤ count =
          stream_change-le b.current_stream_id stream b.discontinuity_count in
        let s : Segment F T = segment_of b found name payload at stream count in
        let (same, e) =
          evict-Evicted b.window_segments b.max_bytes (b.segments ++ s ∷ [])
            (b.bytes + length payload)
            (omega (arith, v.counted, total_bytes-append b.segments (s ∷ []))) in
        record {
          counted = same;
          few = e.few;
          small = omega (arith, same, e.small);
          ascending = Ascending-drop e.gone _ 0 0 (
              subst (Ascending 0 0) e.suffix (
                Ascending-snoc b.segments s 0 0 b.next_sequence b.discontinuity_count v.ascending
                  v.below (omega arith) (omega arith) refl grown));
          below = Below-drop e.gone _ (b.next_sequence + 1) count (
              subst (Below (b.next_sequence + 1) count) e.suffix (
                Below-snoc b.segments s b.next_sequence b.discontinuity_count _ _ v.below
                  (omega arith) grown (omega arith) (omega arith)));
        }

    -- From a valid buffer, adding a segment, accepted or refused, keeps the window within its limits, its byte count
    -- exact, and its sequence numbers rising.
    pub add_segment-IsValid : IsValid (add_segment b name payload at stream).1
    unfolding add_segment
    add_segment-IsValid =
        elim (Bool-cases (has_segment name b.segments || contains name b.recent.members)) [
          | inl known ↦ rw known v
          | inr fresh ↦ rw fresh accept-IsValid
        ]

  pub new_buffer-IsValid : (window limit : ℕ) (d : F) → IsValid (new_buffer {T = T} window limit d)
  unfolding new_buffer
  new_buffer-IsValid window limit d = record {
    counted = refl;
    few = omega arith;
    small = omega arith;
    ascending = tt;
    below = tt;
  }
