-- ===== src/Archive/Manager/Flow.antt =====
-- No accepted segment is lost, repeated or reordered on its way to the backend, and the bytes held
-- for a camera are counted exactly and stay within its budget.
use camvault.Prelude.{
  ℕ, ◌+◌, ◌≤◌, ◌≡◌, refl, sym, ap, subst, ◌∙◌, String, List, [], ◌∷◌, ◌++◌, not, ◌&&◌, Option, none,
  some, ltb, ◌==◌, length, arith, append-nil, append_assoc, Bool-cases, inl, inr,
}
use camvault.Live.Segment.{Segment, total_bytes}
use camvault.Archive.Accumulator.{Floats, Batch, Accumulator, pop, add, tune}
use camvault.Archive.Accumulator.Sealed.{
  Keeps, handed, total_bytes-append, pop-Keeps, add-Keeps, tune-Keeps,
}
use camvault.Archive.Manager.{
  Ingest, idle, put_then_limit, put_then_reserve, reserve, put_last, Camera, limit_check, begin_add,
  accept, rotate, confirm, Step, Reach,
}

module _ {F T : Type 0} where
  abbrev pub batch_segments : List (Batch F T) → List (Segment F T)
  batch_segments [] = []
  batch_segments (b ∷ bs) = b.segments ++ batch_segments bs

  -- The batch that the ingest task still has to put.
  abbrev pub putting : Ingest F T → List (Segment F T)
  putting idle = []
  putting (put_then_limit b s) = b.segments
  putting (put_then_reserve b s) = b.segments
  putting (reserve s) = []
  putting (put_last b) = b.segments

  -- What is in memory, oldest first.
  abbrev pub in_memory : Camera F T → List (Segment F T)
  in_memory c =
      handed c.worker ++ (batch_segments c.queue ++ (putting c.ingest ++ c.accumulator.segments))

  pub record Flows (c : Camera F T) : Type 0 where
    pub history : batch_segments c.written ++ in_memory c ≡ c.accepted
    pub retained : c.retained ≡ total_bytes (in_memory c)
    pub within : c.retained ≤ c.max_bytes
    pub counted : c.accumulator.bytes ≡ total_bytes c.accumulator.segments

  batch_segments-append :
      (xs : List (Batch F T)) (b : Batch F T)
      → batch_segments (xs ++ b ∷ []) ≡ batch_segments xs ++ b.segments
  batch_segments-append [] b = append-nil b.segments
  batch_segments-append (x ∷ xs) b =
      ap (λ t. x.segments ++ t) (batch_segments-append xs b)
      ∙ sym (append_assoc x.segments _ b.segments)

  -- A camera with some of its fields written out.
  written_out :
      (c : Camera F T) {i : Ingest F T} {q : List (Batch F T)} {w : Option (Batch F T)}
      → c.ingest ≡ i
      → c.queue ≡ q
      → c.worker ≡ w
      → Flows c
      → Flows (record c { ingest = i; queue = q; worker = w })
  written_out c ei eq ew v =
      subst Flows (λ j. record c { ingest = ei j; queue = eq j; worker = ew j }) v

  -- A step that only moves segments within the memory.
  moved :
      (c d : Camera F T)
      → Flows c
      → in_memory d ≡ in_memory c
      → d.written ≡ c.written
      → d.accepted ≡ c.accepted
      → d.retained ≡ c.retained
      → d.max_bytes ≡ c.max_bytes
      → d.accumulator.bytes ≡ total_bytes d.accumulator.segments
      → Flows d
  moved c d v m w a r l n = record {
    history = rw (w, m, a) v.history;
    retained = r ∙ v.retained ∙ ap total_bytes (sym m);
    within = omega (arith, r, l, v.within);
    counted = n;
  }

module _ {F T : Type 0} (floats : Floats F) where
  -- What is sealed is put next; the memory's order does not change.
  sealed_order :
      (c : Camera F T) (batch : Option (Batch F T)) (a : Accumulator F T) (i : Ingest F T)
      → handed batch ++ a.segments ≡ c.accumulator.segments
      → putting i ≡ handed batch
      → handed c.worker ++ (batch_segments c.queue ++ (putting i ++ a.segments))
        ≡ handed c.worker ++ (batch_segments c.queue ++ c.accumulator.segments)
  sealed_order c batch a i e p =
      ap (λ t. handed c.worker ++ (batch_segments c.queue ++ t)) (ap (λ t. t ++ a.segments) p ∙ e)

  limit_check-Flows :
      (c : Camera F T) (s : Segment F T) (id : String)
      → Flows (record c { ingest = idle })
      → Flows (limit_check floats c s id)
  unfolding limit_check
  limit_check-Flows c s id v =
      elim (Bool-cases (
        not (c.accumulator.bytes == 0)
        && ltb c.max_bytes (c.accumulator.bytes + length s.payload))) [
          | inl over ↦
              rw over
                (go (pop floats c.accumulator id) (pop-Keeps floats c.accumulator id v.counted))
          | inr room ↦
              rw room (moved (record c { ingest = idle }) _ v refl refl refl refl refl v.counted)
        ]
    where
      go :
          (r : Option (Batch F T) × Accumulator F T)
          → Keeps c.accumulator.segments r
          → Flows {F = F} {T = T} (elim r.0 [
            | none ↦ record c { accumulator = r.1; ingest = reserve s }
            | some b ↦ record c { accumulator = r.1; ingest = put_then_reserve b s }
          ])
      go (none, a) k =
          moved (record c { ingest = idle }) _ v (sealed_order c none a (reserve s) k.order refl)
            refl refl refl refl k.counted
      go (some b, a) k =
          moved (record c { ingest = idle }) _ v
            (sealed_order c (some b) a (put_then_reserve b s) k.order refl) refl refl refl refl
            k.counted

  begin_add-Flows :
      (c : Camera F T) (s : Segment F T) (targets : Option (F × ℕ)) (id id' : String)
      → Flows (record c { ingest = idle })
      → Flows (begin_add floats c s targets id id')
  unfolding begin_add
  begin_add-Flows c s none id id' v = limit_check-Flows c s id' v
  begin_add-Flows c s (some (seconds, bytes)) id id' v =
      go (tune floats c.accumulator seconds bytes id)
        (tune-Keeps floats c.accumulator seconds bytes id v.counted)
    where
      go :
          (r : Option (Batch F T) × Accumulator F T)
          → Keeps c.accumulator.segments r
          → Flows {F = F} {T = T} (elim r.0 [
            | none ↦ limit_check floats (record c { accumulator = r.1 }) s id'
            | some b ↦ record c { accumulator = r.1; ingest = put_then_limit b s }
          ])
      go (none, a) k =
          limit_check-Flows (record c { accumulator = a }) s id'
            (moved (record c { ingest = idle }) _ v (sealed_order c none a idle k.order refl) refl
              refl refl refl k.counted)
      go (some b, a) k =
          moved (record c { ingest = idle }) _ v
            (sealed_order c (some b) a (put_then_limit b s) k.order refl) refl refl refl refl
            k.counted

  rotate-Flows :
      (c : Camera F T) (id : String)
      → Flows (record c { ingest = idle })
      → Flows (rotate floats c id)
  unfolding rotate
  rotate-Flows c id v =
      go (pop floats c.accumulator id) (pop-Keeps floats c.accumulator id v.counted)
    where
      go :
          (r : Option (Batch F T) × Accumulator F T)
          → Keeps c.accumulator.segments r
          → Flows {F = F} {T = T} (record c {
            accumulator = r.1;
            ingest = elim r.0 [ none ↦ idle | some b ↦ put_last b ];
          })
      go (none, a) k =
          moved (record c { ingest = idle }) _ v (sealed_order c none a idle k.order refl) refl refl
            refl refl k.counted
      go (some b, a) k =
          moved (record c { ingest = idle }) _ v
            (sealed_order c (some b) a (put_last b) k.order refl) refl refl refl refl k.counted

  -- A reserved segment joins the end of the memory and of the history.
  joined :
      (c : Camera F T) (s : Segment F T) (batch : Option (Batch F T)) (a : Accumulator F T)
      (i : Ingest F T)
      → Flows (record c { ingest = reserve s })
      → handed batch ++ a.segments ≡ c.accumulator.segments ++ s ∷ []
      → putting i ≡ handed batch
      → a.bytes ≡ total_bytes a.segments
      → c.retained + length s.payload ≤ c.max_bytes
      → Flows (record c {
        accumulator = a;
        retained = c.retained + length s.payload;
        accepted = c.accepted ++ s ∷ [];
        ingest = i;
      })
  joined c s batch a i v e p n fits =
      let m : List (Segment F T) =
        handed c.worker ++ (batch_segments c.queue ++ c.accumulator.segments) in
      let q : handed c.worker ++ (batch_segments c.queue ++ (putting i ++ a.segments))
          ≡ m ++ s ∷ [] =
        ap (λ t. handed c.worker ++ (batch_segments c.queue ++ t)) (ap (λ t. t ++ a.segments) p ∙ e)
        ∙ ap (λ t. handed c.worker ++ t)
            (sym (append_assoc (batch_segments c.queue) c.accumulator.segments (s ∷ [])))
        ∙ sym (append_assoc (handed c.worker) _ (s ∷ [])) in
      record {
        history =
            ap (λ t. batch_segments c.written ++ t) q
            ∙ sym (append_assoc (batch_segments c.written) m (s ∷ []))
            ∙ ap (λ t. t ++ s ∷ []) v.history;
        retained = omega (arith, v.retained, ap total_bytes q, total_bytes-append m (s ∷ []));
        within = fits;
        counted = n;
      }

  accept-Flows :
      (c : Camera F T) (s : Segment F T) (id : String)
      → Flows (record c { ingest = reserve s })
      → c.retained + length s.payload ≤ c.max_bytes
      → Flows (accept floats c s id)
  unfolding accept
  accept-Flows c s id v fits =
      go (add floats c.accumulator s id) (add-Keeps floats c.accumulator s id v.counted)
    where
      go :
          (r : Option (Batch F T) × Accumulator F T)
          → Keeps (c.accumulator.segments ++ s ∷ []) r
          → Flows {F = F} {T = T} (record c {
            accumulator = r.1;
            retained = c.retained + length s.payload;
            accepted = c.accepted ++ s ∷ [];
            ingest = elim r.0 [ none ↦ idle | some b ↦ put_last b ];
          })
      go (none, a) k = joined c s none a idle v k.order refl k.counted fits
      go (some b, a) k = joined c s (some b) a (put_last b) v k.order refl k.counted fits

  confirm-Flows :
      (c : Camera F T) (b : Batch F T)
      → Flows (record c { worker = some b })
      → Flows (confirm floats c b)
  unfolding confirm
  confirm-Flows c b v =
      let rest : List (Segment F T) =
        batch_segments c.queue ++ (putting c.ingest ++ c.accumulator.segments) in
      record {
        history =
            ap (λ t. t ++ rest) (batch_segments-append c.written b)
            ∙ append_assoc (batch_segments c.written) b.segments rest
            ∙ v.history;
        retained = omega (arith, v.retained, total_bytes-append b.segments rest);
        within = omega (arith, v.within);
        counted = v.counted;
      }

  -- Every step keeps all four parts.
  pub Step-Flows : {c d : Camera F T} → Step floats c d → Flows c → Flows d
  Step-Flows {c} (Step.add_begins s targets id id' i open_ fits) v =
      begin_add-Flows c s targets id id' (written_out c i refl refl v)
  Step-Flows {c} (Step.rotates id i) v = rotate-Flows c id (written_out c i refl refl v)
  Step-Flows {c} (Step.puts_tuned b s id i q) v =
      limit_check-Flows (record c { queue = b ∷ [] }) s id
        (moved (record c { ingest = put_then_limit b s; queue = [] }) _ (written_out c i q refl v)
          (ap (λ t. handed c.worker ++ (t ++ c.accumulator.segments)) (append-nil b.segments)) refl
          refl refl refl v.counted)
  Step-Flows {c} (Step.puts_sealed b s i q) v =
      moved (record c { ingest = put_then_reserve b s; queue = [] }) _ (written_out c i q refl v)
        (ap (λ t. handed c.worker ++ (t ++ c.accumulator.segments)) (append-nil b.segments)) refl
        refl refl refl v.counted
  Step-Flows {c} (Step.puts_last b i q) v =
      moved (record c { ingest = put_last b; queue = [] }) _ (written_out c i q refl v)
        (ap (λ t. handed c.worker ++ (t ++ c.accumulator.segments)) (append-nil b.segments)) refl
        refl refl refl v.counted
  Step-Flows {c} (Step.reserves s id i open_ fits) v =
      accept-Flows c s id (written_out c i refl refl v) fits
  Step-Flows {c} (Step.refuses s i shut) v =
      moved (record c { ingest = reserve s }) _ (written_out c i refl refl v) refl refl refl refl
        refl v.counted
  Step-Flows {c} (Step.takes b w q) v =
      moved (record c { queue = b ∷ []; worker = none }) _ (written_out c refl q w v)
        (ap (λ t. t ++ (putting c.ingest ++ c.accumulator.segments)) (sym (append-nil b.segments)))
        refl refl refl refl v.counted
  Step-Flows {c} (Step.write_fails b w) v = v
  Step-Flows {c} (Step.write_succeeds b w) v = confirm-Flows c b (written_out c refl refl w v)
  Step-Flows {c} Step.closes v = moved c _ v refl refl refl refl refl v.counted

  -- From a camera for which this holds, as it does for a new one, whatever the tasks do, in whatever
  -- order, and whatever the backend refuses: the confirmed
  -- batches, followed by what is in memory, are the accepted segments in the order of acceptance; the
  -- retained bytes are those of the memory, and they never pass the camera's budget.
  pub Reach-Flows : {c d : Camera F T} → Flows c → Reach floats c d → Flows d
  Reach-Flows v Reach.here = v
  Reach-Flows v (Reach.next r s) = Step-Flows s (Reach-Flows v r)
