-- ===== src/Archive/Local/Committed.antt =====
-- What an attempt to write one batch never leaves in its directory.
use camvault.Prelude.{ℕ, zero, suc, ◌≡◌, refl, sym, Bool, false, Option, none, some, arith, subst}
use camvault.Crypto.Bytes.{Bytes}
use camvault.Archive.Local.{
  Files, Payload, is_orphan, unlink_orphan, apply, apply_all, interrupt, clearing, committing, Fate,
  completes, stops_clearing, stops, present, commit, write_archive_batch, retried,
}

-- No sidecar without its recording.
abbrev pub IsPaired : Files → Type 0
IsPaired f = f.media ≡ none → f.metadata ≡ none

orphan-IsPaired : (f : Files) → IsPaired f → IsPaired (apply unlink_orphan f)
unfolding apply
orphan-IsPaired f h e = ground (arith, h)

-- The clearing, which is the handler too, stopped anywhere.
clearing-IsPaired : (k : ℕ) (f : Files) → IsPaired f → IsPaired (interrupt k none clearing f)
unfolding interrupt
clearing-IsPaired zero f h = h
clearing-IsPaired (suc zero) f h = h
clearing-IsPaired (suc (suc zero)) f h = h
clearing-IsPaired (suc (suc (suc k))) f h =
    orphan-IsPaired (record f { media_partial = none; metadata_partial = none }) h

committing-IsPaired :
    (media metadata : Bytes) (k : ℕ) (cut : Option ℕ) (f : Files)
    → IsPaired f
    → IsPaired (interrupt k cut (committing media metadata) f)
unfolding interrupt
committing-IsPaired media metadata zero none f h e = h e
committing-IsPaired media metadata zero (some cut) f h e = h e
committing-IsPaired media metadata (suc zero) none f h e = h e
committing-IsPaired media metadata (suc zero) (some cut) f h e = h e
committing-IsPaired media metadata (suc (suc zero)) none f h e = h e
committing-IsPaired media metadata (suc (suc zero)) (some cut) f h e = h e
committing-IsPaired media metadata (suc (suc (suc zero))) none f h e = cc
committing-IsPaired media metadata (suc (suc (suc zero))) (some cut) f h e = cc
committing-IsPaired media metadata (suc (suc (suc (suc k)))) none f h e = cc
committing-IsPaired media metadata (suc (suc (suc (suc k)))) (some cut) f h e = cc

-- The clearing changes no sidecar, and no recording that has one.
pub clearing_keeps :
    (k : ℕ) (f : Files)
    → ((interrupt k none clearing f).metadata ≡ f.metadata)
      × ((text : Bytes) → f.metadata ≡ some text → (interrupt k none clearing f).media ≡ f.media)
unfolding interrupt apply
clearing_keeps zero f = (refl, λ text e. refl)
clearing_keeps (suc zero) f = (refl, λ text e. refl)
clearing_keeps (suc (suc zero)) f = (refl, λ text e. refl)
clearing_keeps (suc (suc (suc k))) f = (ground arith, λ text e. ground arith)

-- After the clearing there is no partial file and no recording without its sidecar.
pub record IsCleared (f : Files) : Type 0 where
  pub no_media_partial : f.media_partial ≡ none
  pub no_metadata_partial : f.metadata_partial ≡ none
  pub no_orphan : is_orphan f ≡ false

clearing-IsCleared : (k : ℕ) (f : Files) → IsCleared (interrupt (suc (suc (suc k))) none clearing f)
unfolding interrupt apply
clearing-IsCleared k f = record {
  no_media_partial = ground arith;
  no_metadata_partial = ground arith;
  no_orphan = ground arith;
}

module _ {R : Type 0} (read : Bytes → Option (Payload R)) (record_of : R)
    (media metadata : Bytes) where
  commit-IsPaired :
      (fate : Fate) (f : Files) → IsPaired f → IsPaired (commit record_of media metadata fate f).1
  unfolding commit apply_all
  commit-IsPaired completes f h e = cc
  commit-IsPaired (stops_clearing k) f h e = clearing-IsPaired k f h e
  commit-IsPaired (stops k cut j) f h e =
      clearing-IsPaired j _ (committing-IsPaired media metadata k cut _ (clearing-IsPaired 3 f h)) e

  -- However an attempt goes, whether the sidecar can be read or not, where there was no sidecar without its recording, there is none after it.
  pub write_archive_batch-IsPaired :
      (can_read : Bool) (fate : Fate) (f : Files)
      → IsPaired f
      → IsPaired (write_archive_batch can_read read record_of media metadata fate f).1
  unfolding write_archive_batch
  write_archive_batch-IsPaired can_read fate f h = from_present (present can_read read f)
    where
      from_present : (o : Option R) → IsPaired (retried record_of media metadata fate f o).1
      from_present none = commit-IsPaired fate f h
      from_present (some found) = h

  -- Where no pair is there, or it could not be read, an attempt that fails after its clearing, and whose handler comes
  -- to its end, leaves no partial file and no recording without its sidecar.
  pub write_archive_batch-IsCleared :
      (can_read : Bool) (k j : ℕ) (cut : Option ℕ) (f : Files)
      → present can_read read f ≡ none
      → IsCleared
          (write_archive_batch can_read read record_of media metadata
            (stops k cut (suc (suc (suc j))))
            f).1
  unfolding write_archive_batch commit
  write_archive_batch-IsCleared can_read k j cut f e =
      subst
        (λ o. IsCleared (retried record_of media metadata (stops k cut (suc (suc (suc j)))) f o).1)
        (sym e)
        (clearing-IsCleared j (interrupt k cut (committing media metadata) (apply_all clearing f)))
