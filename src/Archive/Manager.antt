-- ===== src/Archive/Manager.antt =====
-- archive.py: `ArchiveManager`, for one camera: every queue, lock, condition and counter is kept per
-- camera. A step is what a task runs between two `await`s that can block: the ingest request that
-- holds the camera's lock, and the worker.
pub mod Flow
pub mod Targets
use camvault.Prelude.{
  ℕ, zero, suc, ◌+◌, ◌-◌, ◌≤◌, ◌<◌, ◌≡◌, String, List, [], ◌∷◌, ◌++◌, Bool, true, false, not, ◌&&◌,
  Option, none, some, ltb, leb, ◌==◌, if◌then◌else◌, length,
}
use camvault.Live.Segment.{Segment}
use camvault.Archive.Accumulator.{Floats, Batch, Accumulator, size_bytes, pop, add, tune}

module _ (F T : Type 0) where
  -- What the task that holds the ingest lock waits for: room in the queue, with what it does next,
  -- or the byte budget.
  pub data Ingest : Type 0 where
    idle : Ingest
    put_then_limit : Batch F T → Segment F T → Ingest
    put_then_reserve : Batch F T → Segment F T → Ingest
    reserve : Segment F T → Ingest
    put_last : Batch F T → Ingest

  -- `accepted` and `written` are histories: the segments that the budget let in, and the batches
  -- whose write the backend has confirmed.
  pub record Camera : Type 0 where
    pub max_bytes : ℕ
    pub accumulator : Accumulator F T
    pub queue : List (Batch F T)
    pub ingest : Ingest
    pub worker : Option (Batch F T)
    pub retained : ℕ
    pub closing : Bool
    pub accepted : List (Segment F T)
    pub written : List (Batch F T)

module _ {F T : Type 0} (floats : Floats F) where
  -- The accumulator must not grow past the limit: seal it first.
  unfoldable pub limit_check : Camera F T → Segment F T → String → Camera F T
  limit_check c segment object_id =
      let (batch, a) = pop floats c.accumulator object_id in
      if not (c.accumulator.bytes == 0)
        && ltb c.max_bytes (c.accumulator.bytes + length segment.payload)
      then elim batch [
        | none ↦ record c { accumulator = a; ingest = reserve segment }
        | some b ↦ record c { accumulator = a; ingest = put_then_reserve b segment }
      ]
      else record c { ingest = reserve segment }

  -- `add`, behind the lock: with adaptive targets the accumulator is tuned first.
  unfoldable pub begin_add :
      Camera F T → Segment F T → Option (F × ℕ) → String → String → Camera F T
  unfolding limit_check
  begin_add c segment none id id' = limit_check c segment id'
  begin_add c segment (some (seconds, bytes)) id id' =
      let (batch, a) = tune floats c.accumulator seconds bytes id in
      elim batch [
        | none ↦ limit_check (record c { accumulator = a }) segment id'
        | some b ↦ record c { accumulator = a; ingest = put_then_limit b segment }
      ]

  -- The budget has room: the bytes are reserved and the segment joins the accumulator.
  pub accept : Camera F T → Segment F T → String → Camera F T
  accept c segment object_id =
      let (batch, a) = add floats c.accumulator segment object_id in
      record c {
        accumulator = a;
        retained = c.retained + length segment.payload;
        accepted = c.accepted ++ segment ∷ [];
        ingest = elim batch [ none ↦ idle | some b ↦ put_last b ];
      }

  -- `rotate_camera`
  pub rotate : Camera F T → String → Camera F T
  rotate c object_id =
      let (batch, a) = pop floats c.accumulator object_id in
      record c { accumulator = a; ingest = elim batch [ none ↦ idle | some b ↦ put_last b ] }

  -- `_worker`, after a confirmed write: `_release` in `finally`.
  pub confirm : Camera F T → Batch F T → Camera F T
  confirm c batch = record c {
    worker = none;
    written = c.written ++ batch ∷ [];
    retained = c.retained - size_bytes batch;
  }

  pub data Step (c : Camera F T) : Camera F T → Type 0 where
    -- An ingest request takes the lock; a segment that never fits is refused before.
    add_begins :
        (segment : Segment F T) (targets : Option (F × ℕ)) (id id' : String)
        → c.ingest ≡ idle
        → c.closing ≡ false
        → length segment.payload ≤ c.max_bytes
        → Step c (begin_add c segment targets id id')
    rotates : (id : String) → c.ingest ≡ idle → Step c (rotate c id)
    -- `queue.put`, where the queue of one has room.
    puts_tuned :
        (batch : Batch F T) (segment : Segment F T) (id : String)
        → c.ingest ≡ put_then_limit batch segment
        → c.queue ≡ []
        → Step c (limit_check (record c { queue = batch ∷ [] }) segment id)
    puts_sealed :
        (batch : Batch F T) (segment : Segment F T)
        → c.ingest ≡ put_then_reserve batch segment
        → c.queue ≡ []
        → Step c (record c { queue = batch ∷ []; ingest = reserve segment })
    puts_last :
        (batch : Batch F T)
        → c.ingest ≡ put_last batch
        → c.queue ≡ []
        → Step c (record c { queue = batch ∷ []; ingest = idle })
    -- `_reserve`: the condition holds, or the manager is closing and the request fails.
    reserves :
        (segment : Segment F T) (id : String)
        → c.ingest ≡ reserve segment
        → c.closing ≡ false
        → c.retained + length segment.payload ≤ c.max_bytes
        → Step c (accept c segment id)
    refuses :
        (segment : Segment F T)
        → c.ingest ≡ reserve segment
        → c.closing ≡ true
        → Step c (record c { ingest = idle })
    -- The worker: takes a batch, fails and keeps it for the next attempt, or has it confirmed.
    takes :
        (batch : Batch F T)
        → c.worker ≡ none
        → c.queue ≡ batch ∷ []
        → Step c (record c { queue = []; worker = some batch })
    write_fails : (batch : Batch F T) → c.worker ≡ some batch → Step c c
    write_succeeds : (batch : Batch F T) → c.worker ≡ some batch → Step c (confirm c batch)
    closes : Step c (record c { closing = true })

  pub data Reach (c : Camera F T) : Camera F T → Type 0 where
    here : Reach c c
    next : {d e : Camera F T} → Reach c d → Step d e → Reach c e
