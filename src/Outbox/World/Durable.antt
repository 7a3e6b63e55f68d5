-- ===== src/Outbox/World/Durable.antt =====
-- No acknowledged recording is lost.
use camvault.Prelude.{
  ℕ, ◌+◌, ◌≤◌, ◌≡◌, refl, ap, ◌∙◌, List, Option, none, some, arith, All, take, drop, length, ◌⊎◌,
  inl, inr, Option-cases,
}
use camvault.Outbox.Disk.{Disk, Folder, find, Act, apply_all}
use camvault.Outbox.Disk.Laws.{name_eq_refl}
use camvault.Outbox.Entry.{loaded, load_entry, Entry, identifier, disk_bytes, manifest_limit}
use camvault.Outbox.Persist.{
  Setup, Prepared, Memory, write, plan, interrupt, pending_name, manifest_of, register, lookup,
  json_of, needed,
}
use camvault.Outbox.Persist.Laws.{find_all_written}
use camvault.Outbox.Persist.Plans.{plan-Facts, new_entry}
use camvault.Outbox.Persist.Effects.{Same-Extends, Same-Honest}
use camvault.Outbox.Open.{Scan, scan_all, start_scan, listing, next_acts}
use camvault.Outbox.Open.Complete.{open_outbox-Reopened, scan_all-Recovered, start_Recovered}
use camvault.Outbox.World.{
  Recording, recording, recording_id, World, id_of, accept, deliver, Step, written, found, missized,
  failed, died_writing, uploaded, kept, died_uploading, blocked, stopped, opened, not_opened,
  Reachable, begin, next,
}
use camvault.Read.Range.{Text}
use camvault.Outbox.World.Sound.{In, RecordingOf, batch_manifest, All-map, Sound, Kept}
use camvault.Outbox.World.Quiet.{
  Ready, Digests, next_Same, quiet-Sound, dead-Sound, reopen-Sound, no_memory,
}
use camvault.Outbox.World.Steps.{
  written-Sound, found-Sound, missized-Sound, failed-Sound, died_writing-Sound, uploaded-Sound,
  kept-Sound, died_uploading-Sound, blocked-Sound,
}

not_opened-Sound :
    (s : Setup) (w : World) (c : Scan) (k j : ℕ)
    → Sound s w
    → scan_all s (take k (listing w.disk)) (start_scan w.disk) ≡ some c
    → Sound s (record w { disk = interrupt j none (next_acts (drop k (listing w.disk))) c.disk })
not_opened-Sound s w c k j sound scanned =
    let r =
      scan_all-Recovered s w.disk (take k (listing w.disk)) (start_scan w.disk) c scanned
        (start_Recovered s w.disk sound.honest) in
    let same = next_Same j (drop k (listing w.disk)) c.disk in
    quiet-Sound s w _ sound (λ i f h. Same-Extends c.disk _ same i f (r.extends i f h))
      (Same-Honest s c.disk _ same r.honest)

step-Sound :
    (s : Setup) (w after : World)
    → Digests s
    → All (Ready s) after.given
    → Step s w after
    → Sound s w
    → Sound s after
unfolding accept deliver
step-Sound s w after digests ready
      (written {m = m} {e = e} {acts = acts} free p acknowledge is planned) sound =
    written-Sound s w m sound is e acts free p acknowledge digests ready.0 planned
step-Sound s w after digests ready (found {m = m} {e = e} free p acknowledge is planned) sound =
    found-Sound s w m sound is e free p acknowledge planned
step-Sound s w after digests ready (missized {m = m} {acts = acts} free p is planned) sound =
    missized-Sound s w m sound is acts free p planned
step-Sound s w after digests ready (failed {m = m} free p k j cut is) sound =
    failed-Sound s w m sound is free p k j cut
step-Sound s w after digests ready (died_writing {m = m} free p k cut is) sound =
    died_writing-Sound s w m sound is free p k cut
step-Sound s w after digests ready
      (uploaded {m = m} {e = e} {f = f} k is choice there intact renames) sound =
    uploaded-Sound s w m sound is e f choice there k
step-Sound s w after digests ready (kept {m = m} {e = e} {f = f} is choice there intact) sound =
    kept-Sound s w m sound is e f choice there
step-Sound s w after digests ready
      (died_uploading {m = m} {e = e} {f = f} k is choice there intact renames) sound =
    died_uploading-Sound s w m sound is e f choice there k
step-Sound s w after digests ready (blocked {m = m} {e = e} {f = f} is choice there intact) sound =
    blocked-Sound s w m sound is e f choice there
step-Sound s w after digests ready stopped sound =
    dead-Sound s w w.disk sound (λ i f h. h) sound.honest
step-Sound s w after digests ready (opened {d = d} {m = m} is scanned) sound =
    reopen-Sound s w d m sound is (open_outbox-Reopened s w.disk d m sound.honest scanned)
step-Sound s w after digests ready (not_opened {c = c} k j is scanned) sound =
    not_opened-Sound s w c k j sound scanned

-- The batches that were given only grow.
given_before :
    (s : Setup) (w after : World)
    → Step s w after
    → All (Ready s) after.given
    → All (Ready s) w.given
unfolding accept deliver
given_before s w after (written free p acknowledge is planned) ready = ready.1
given_before s w after (found free p acknowledge is planned) ready = ready.1
given_before s w after (missized free p is planned) ready = ready
given_before s w after (failed free p k j cut is) ready = ready
given_before s w after (died_writing free p k cut is) ready = ready
given_before s w after (uploaded k is choice there intact renames) ready = ready
given_before s w after (kept is choice there intact) ready = ready
given_before s w after (died_uploading k is choice there intact renames) ready = ready
given_before s w after (blocked is choice there intact) ready = ready
given_before s w after stopped ready = ready
given_before s w after (opened is scanned) ready = ready
given_before s w after (not_opened k j is scanned) ready = ready

pub Reachable-Sound :
    (s : Setup) (w : World) → Digests s → Reachable s w → All (Ready s) w.given → Sound s w
unfolding find
Reachable-Sound s w digests begin ready = record {
  honest = λ j f e there loads. absurd (ground arith);
  mapped = λ m is. no_memory m is;
  kept = tt;
}
Reachable-Sound s after digests (next {w = w} r step) ready =
    step-Sound s w after digests ready step
      (Reachable-Sound s w digests r (given_before s w after step ready))

-- While the process runs, the entry is in its memory.
abbrev pub Remembered : Option Memory → Text → Entry → Type 0
Remembered none i e = Unit {0}
Remembered (some m) i e = lookup i m.entries ≡ some e

-- A recording is with the remote, or the directory of its identifier holds its manifest and files,
-- loads, and is remembered.
abbrev pub Safe : Setup → World → Recording → Type 0
Safe s w r =
    In r w.remote
    ⊎ ((f : Folder) × (e : Entry) × (find (pending_name (recording_id s r)) w.disk ≡ some f)
        × (load_entry (pending_name (recording_id s r)) f ≡ loaded e)
        × (recording e.manifest f ≡ r)
        × Remembered w.memory (recording_id s r) e)

remembered :
    (memory : Option Memory) (i : Text) (e : Entry)
    → ((m : Memory) → memory ≡ some m → lookup i m.entries ≡ some e)
    → Remembered memory i e
remembered none i e h = tt
remembered (some m) i e h = h m refl

Kept-Safe : (s : Setup) (w : World) (r : Recording) → Kept s w r → Safe s w r
Kept-Safe s w r (inl delivered) = inl delivered
Kept-Safe s w r (inr (f, e, there, loads, same, known)) =
    inr (f, e, there, loads, same, remembered w.memory (recording_id s r) e known)

-- In every state that is reached from an empty directory by steps of the outbox, its errors and deaths
-- included, where digests have their form and the batches that were accepted can be read back, each
-- acknowledged batch is safe: for one that was written, its own files with their manifest, and for one
-- whose entry was there already, the recording of an entry whose `camera_id/relative_path` has the
-- digest of the batch's, is with the remote, or its directory holds exactly this manifest and these
-- files and, while the process runs, its entry is in memory.
pub durable :
    (s : Setup) (w : World)
    → Digests s
    → Reachable s w
    → All (Ready s) w.given
    → All (λ a. (r : Recording) × RecordingOf s a r × Safe s w r) w.acknowledged
durable s w digests r ready =
    All-map w.acknowledged (λ a (r, is, k). (r, is, Kept-Safe s w r k))
      (Reachable-Sound s w digests r ready).kept

-- Where `_persist` writes a new entry, its acts leave on the disk, in the directory of the batch's
-- identifier, which is the entry's, exactly the batch's two files and the file of the manifest with
-- the batch's camera and path and the files' sizes and hashes; and the entry has this manifest.
pub persisted_recording :
    (s : Setup) (m : Memory) (d : Disk) (free : ℕ) (p : Prepared) (e : Entry) (acts : List Act)
    → plan s m d free p ≡ write e acts
    → let stored = batch_manifest s p in
      (find (pending_name (id_of s p)) (apply_all acts d)
        ≡ some (record {
          media = some p.media;
          metadata = some p.metadata;
          manifest = some (record { size = s.json_size stored; content = some stored });
        }))
      × (e.folder ≡ pending_name (id_of s p))
      × (e.manifest ≡ stored)
unfolding new_entry manifest_of json_of
persisted_recording s m d free p e acts planned =
    let (missing, entry, all, fits, media, metadata, spare) = plan-Facts s m d free p _ planned in
    let i = id_of s p in
    (
      ap (λ (x : List Act). find (pending_name i) (apply_all x d)) all
          ∙ find_all_written s i i p d
          ∙ rw (name_eq_refl (pending_name i)),
      ap (λ (x : Entry). x.folder) entry,
      ap (λ (x : Entry). x.manifest) entry,
    )

register-used :
    (s : Setup) (e : Entry) (m : Memory)
    → ((register s e m).used ≡ m.used) ⊎ ((register s e m).used ≡ m.used + disk_bytes e)
unfolding register
register-used s e m = elim (Option-cases (lookup (identifier s.name_hash e) m.entries)) [
  | inl new ↦ inr (rw (new, register))
  | inr (old, known) ↦ inl (rw (known, register))
]

-- Where the outbox is within its limit and the new manifest within 16 KiB, it is within its limit
-- after a new entry that `_persist` writes is registered.
pub used-bounded :
    (s : Setup) (m : Memory) (d : Disk) (free : ℕ) (p : Prepared) (e : Entry) (acts : List Act)
    → plan s m d free p ≡ write e acts
    → s.json_size (manifest_of s p) ≤ manifest_limit
    → m.used ≤ s.max_bytes
    → (register s e m).used ≤ s.max_bytes
unfolding new_entry manifest_of needed
used-bounded s m d free p e acts planned json before =
    let (missing, entry, all, fits, media, metadata, spare) = plan-Facts s m d free p _ planned in
    let size : disk_bytes e ≡ length p.media + length p.metadata + s.json_size (manifest_of s p) =
      ap disk_bytes entry in
    elim (register-used s e m) [ inl same ↦ omega arith | inr more ↦ omega arith ]
