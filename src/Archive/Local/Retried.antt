-- ===== src/Archive/Local/Retried.antt =====
-- What attempts to write one batch come to.
use camvault.Prelude.{
  ℕ, zero, suc, ◌≡◌, refl, sym, ◌∙◌, List, [], ◌∷◌, Bool, true, false, ◌⊎◌, inl, inr, Option, none,
  some, subst,
}
use camvault.Crypto.Bytes.{Bytes}
use camvault.Archive.Local.{
  Files, Payload, apply_all, interrupt, clearing, committing, Fate, completes, stops_clearing,
  stops, returned, present, commit, write_archive_batch, loaded, retried, usable, decoded,
}
use camvault.Archive.Local.Committed.{IsPaired, clearing_keeps}

module _ {R : Type 0} (read : Bytes → Option (Payload R)) (record_of : R)
    (media metadata : Bytes) where
  -- The pair of this batch.
  abbrev pub IsFinal : Files → Type 0
  IsFinal f = (f.media ≡ some media) × (f.metadata ≡ some metadata)

  -- A sidecar that no recording is read with.
  abbrev IsUnread : Option Bytes → Type 0
  IsUnread text = (bytes : Bytes) → loaded read (some bytes) text ≡ none

  abbrev Settles : Files → Type 0
  Settles f = IsUnread f.metadata ⊎ IsFinal f

  -- Another commit of this batch keeps its pair, wherever it stops.
  committing-IsFinal :
      (k : ℕ) (cut : Option ℕ) (f : Files)
      → IsFinal f
      → IsFinal (interrupt k cut (committing media metadata) f)
  unfolding interrupt
  committing-IsFinal zero none f h = h
  committing-IsFinal zero (some cut) f h = h
  committing-IsFinal (suc zero) none f h = h
  committing-IsFinal (suc zero) (some cut) f h = h
  committing-IsFinal (suc (suc zero)) none f h = h
  committing-IsFinal (suc (suc zero)) (some cut) f h = h
  committing-IsFinal (suc (suc (suc zero))) none f h = (refl, h.1)
  committing-IsFinal (suc (suc (suc zero))) (some cut) f h = (refl, h.1)
  committing-IsFinal (suc (suc (suc (suc k)))) none f h = (refl, refl)
  committing-IsFinal (suc (suc (suc (suc k)))) (some cut) f h = (refl, refl)

  clearing-IsFinal : (k : ℕ) (f : Files) → IsFinal f → IsFinal (interrupt k none clearing f)
  clearing-IsFinal k f (e, e') =
      ((clearing_keeps k f).1 metadata e' ∙ e, (clearing_keeps k f).0 ∙ e')

  commit-IsFinal :
      (fate : Fate) (f : Files) → IsFinal f → IsFinal (commit record_of media metadata fate f).1
  unfolding commit apply_all
  commit-IsFinal completes f h = (refl, refl)
  commit-IsFinal (stops_clearing k) f h = clearing-IsFinal k f h
  commit-IsFinal (stops k cut j) f h =
      clearing-IsFinal j _ (committing-IsFinal k cut _ (clearing-IsFinal 3 f h))

  committing-Settles :
      (k : ℕ) (cut : Option ℕ) (f : Files)
      → IsUnread f.metadata
      → Settles (interrupt k cut (committing media metadata) f)
  unfolding interrupt
  committing-Settles zero none f h = inl h
  committing-Settles zero (some cut) f h = inl h
  committing-Settles (suc zero) none f h = inl h
  committing-Settles (suc zero) (some cut) f h = inl h
  committing-Settles (suc (suc zero)) none f h = inl h
  committing-Settles (suc (suc zero)) (some cut) f h = inl h
  committing-Settles (suc (suc (suc zero))) none f h = inl h
  committing-Settles (suc (suc (suc zero))) (some cut) f h = inl h
  committing-Settles (suc (suc (suc (suc k)))) none f h = inr (refl, refl)
  committing-Settles (suc (suc (suc (suc k)))) (some cut) f h = inr (refl, refl)

  clearing-Settles : (k : ℕ) (f : Files) → Settles f → Settles (interrupt k none clearing f)
  clearing-Settles k f (inl h) = inl (subst IsUnread (sym (clearing_keeps k f).0) h)
  clearing-Settles k f (inr h) = inr (clearing-IsFinal k f h)

  commit-Settles :
      (fate : Fate) (f : Files)
      → IsUnread f.metadata
      → Settles (commit record_of media metadata fate f).1
  unfolding commit apply_all
  commit-Settles completes f h = inr (refl, refl)
  commit-Settles (stops_clearing k) f h = clearing-Settles k f (inl h)
  commit-Settles (stops k cut j) f h =
      clearing-Settles j _
        (committing-Settles k cut _ (subst IsUnread (sym (clearing_keeps 3 f).0) h))

  unread :
      (m text : Option Bytes) → (m ≡ none → text ≡ none) → loaded read m text ≡ none → IsUnread text
  unread none text h e bytes = subst (λ o. loaded read (some bytes) o ≡ none) (sym (h refl)) refl
  unread (some x) none h e bytes = refl
  unread (some x) (some text) h e bytes = e

  absent : (can_read : Bool) (f : Files) → IsUnread f.metadata → present can_read read f ≡ none
  unfolding present
  absent false f h = refl
  absent true f h = absent_pair f.media f.metadata h
    where
      absent_pair : (m text : Option Bytes) → IsUnread text → loaded read m text ≡ none
      absent_pair none text h = refl
      absent_pair (some x) text h = h x

  -- One attempt after the other; the sidecar that is there can be read, or not.
  abbrev pub attempts : List (Bool × Fate) → Files → Files
  attempts [] f = f
  attempts ((can_read, fate) ∷ rest) f =
      attempts rest (write_archive_batch can_read read record_of media metadata fate f).1

  module _ (p : Payload R) (is_json : read metadata ≡ some p)
      (is_usable : usable p ≡ some record_of) where
    present-IsFinal : (f : Files) → IsFinal f → present true read f ≡ some record_of
    unfolding present
    present-IsFinal f (e, e') =
        rw (e, e') (subst (λ o. decoded o ≡ some record_of) (sym is_json) is_usable)

    write-IsFinal :
        (can_read : Bool) (fate : Fate) (f : Files)
        → IsFinal f
        → IsFinal (write_archive_batch can_read read record_of media metadata fate f).1
    unfolding write_archive_batch present
    write-IsFinal true fate f h =
        subst (λ o. IsFinal (retried record_of media metadata fate f o).1)
          (sym (present-IsFinal f h)) h
    write-IsFinal false fate f h = commit-IsFinal fate f h

    write-Settles :
        (can_read : Bool) (fate : Fate) (f : Files)
        → Settles f
        → Settles (write_archive_batch can_read read record_of media metadata fate f).1
    unfolding write_archive_batch
    write-Settles can_read fate f (inl h) =
        subst (λ o. Settles (retried record_of media metadata fate f o).1)
          (sym (absent can_read f h)) (commit-Settles fate f h)
    write-Settles can_read fate f (inr h) = inr (write-IsFinal can_read fate f h)

    attempts-Settles :
        (runs : List (Bool × Fate)) (f : Files) → Settles f → Settles (attempts runs f)
    attempts-Settles [] f h = h
    attempts-Settles ((can_read, fate) ∷ runs) f h =
        attempts-Settles runs _ (write-Settles can_read fate f h)

    attempts-IsFinal :
        (runs : List (Bool × Fate)) (f : Files) → IsFinal f → IsFinal (attempts runs f)
    attempts-IsFinal [] f h = h
    attempts-IsFinal ((can_read, fate) ∷ runs) f h =
        attempts-IsFinal runs _ (write-IsFinal can_read fate f h)

    abbrev Completed : Option R → Files → Type 0
    Completed o f =
        ((retried record_of media metadata completes f o).0 ≡ returned record_of)
        × IsFinal (retried record_of media metadata completes f o).1

    Completed-none : (f : Files) → Completed none f
    unfolding commit apply_all
    Completed-none f = (refl, (refl, refl))

    completed :
        (can_read : Bool) (f : Files)
        → Settles f
        → let w = write_archive_batch can_read read record_of media metadata completes f in
          (w.0 ≡ returned record_of) × IsFinal w.1
    unfolding write_archive_batch present
    completed can_read f (inl h) =
        subst (λ o. Completed o f) (sym (absent can_read f h)) (Completed-none f)
    completed true f (inr h) = subst (λ o. Completed o f) (sym (present-IsFinal f h)) (refl, h)
    completed false f (inr h) = Completed-none f

    again :
        (other : R) (media' metadata' : Bytes) (fate : Fate) (f : Files)
        → IsFinal f
        → write_archive_batch true read other media' metadata' fate f ≡ (returned record_of, f)
    unfolding write_archive_batch
    again other media' metadata' fate f h =
        subst (λ o. retried other media' metadata' fate f o ≡ (returned record_of, f))
          (sym (present-IsFinal f h)) refl

    -- Where no pair could be read and there was no sidecar without its recording, then after any
    -- attempts, however each of them went and whether it could read a sidecar or not, one that comes to
    -- its end returns the record that the new sidecar is read as and leaves the pair of this batch.
    -- From then on every attempt that can read the sidecar, of whatever content, returns that record
    -- and changes nothing; and no attempts of this batch, also where the read fails and the pair is
    -- written again, leave another pair, wherever they stop.
    pub write_archive_batch-retried :
        (runs : List (Bool × Fate)) (can_read : Bool) (f : Files)
        → IsPaired f
        → present true read f ≡ none
        → let w =
            write_archive_batch can_read read record_of media metadata completes
              (attempts runs f) in
          (w.0 ≡ returned record_of)
          × IsFinal w.1
          × ((other : R) (media' metadata' : Bytes) (fate : Fate)
              → write_archive_batch true read other media' metadata' fate w.1
                ≡ (returned record_of, w.1))
          × ((more : List (Bool × Fate)) → IsFinal (attempts more w.1))
    unfolding present
    write_archive_batch-retried runs can_read f paired e =
        let (r, final) =
          completed can_read (attempts runs f)
            (attempts-Settles runs f (inl (unread f.media f.metadata paired e))) in
        (
          r,
          final,
          λ other media' metadata' fate. again other media' metadata' fate _ final,
          λ more. attempts-IsFinal more _ final,
        )
