-- ===== src/Outbox/World/Quiet.antt =====
-- Batches that can be read back, and steps that keep every entry's directory.
use camvault.Prelude.{
  ℕ, ◌≤◌, ◌<◌, ◌≡◌, refl, subst, List, [], ◌∷◌, true, none, some, length, arith, Bool-cases, inl,
  inr,
}
use camvault.Crypto.Bytes.{Bytes}
use camvault.Read.Range.{Text}
use camvault.Outbox.Paths.{safe, safe_recording_relative}
use camvault.Outbox.Disk.{Name, Kind, pending, partial, committed, Disk}
use camvault.Outbox.Entry.{loaded, load_entry, is_entry_id, is_camera_id, manifest_limit}
use camvault.Outbox.Entry.Laws.{load_entry-whole, loaded_entry}
use camvault.Outbox.Persist.{
  Setup, Prepared, Memory, interrupt, tidy, pending_name, committed_name, manifest_of, json_of,
  lookup,
}
use camvault.Outbox.Persist.Laws.{written_folder, find-interrupt-Apart, tidy-Apart}
use camvault.Outbox.Persist.Plans.{new_entry}
use camvault.Outbox.Persist.Effects.{
  Same, Effect, Extends, Honest, Same-Extends, Same-Honest, Grown-Extends, Grown-Honest,
}
use camvault.Outbox.Replay.{cleanup}
use camvault.Outbox.Open.{next_acts}
use camvault.Outbox.Open.Recovered.{Mapped, Mapped-Extends, cleanup-Apart}
use camvault.Outbox.Open.Complete.{Reopened}
use camvault.Outbox.World.{recording_id, World, id_of, tidied}
use camvault.Outbox.World.Sound.{Sound, Honoured-map, Remembers-same, Remembers-none}
use camvault.Outbox.World.Accepted.{extend-Sound}

-- A batch whose manifest can be read back: its camera's name and its path are of the accepted shape,
-- its files are not empty, and its manifest is not too large.
pub record Ready (s : Setup) (p : Prepared) : Type 0 where
  pub camera : is_camera_id p.camera_id ≡ true
  pub parts : List Text
  pub path : safe_recording_relative p.relative_path ≡ safe parts
  pub media : 0 < length p.media
  pub metadata : 0 < length p.metadata
  pub plaintext : 0 < p.plaintext_size
  pub json : s.json_size (manifest_of s p) ≤ manifest_limit

-- Digests are 64 hexadecimal digits.
abbrev pub Digests : Setup → Type 0
Digests s = (bytes : Bytes) → is_entry_id (s.data_hash bytes) ≡ true

pub written_loads :
    (s : Setup) (p : Prepared)
    → Digests s
    → Ready s p
    → load_entry (pending_name (id_of s p)) (written_folder s p)
      ≡ loaded (new_entry s (id_of s p) p)
unfolding json_of manifest_of new_entry loaded_entry
written_loads s p hashes ready =
    load_entry-whole (pending_name (id_of s p)) (written_folder s p) (json_of s (manifest_of s p))
      (manifest_of s p) ready.parts refl refl ready.json ready.camera ready.path (hashes p.media)
      (hashes p.metadata) (ground (arith, ready.media)) (ground (arith, ready.metadata))
      ready.plaintext

pub tidied-Same : (j : ℕ) (id : Text) (d : Disk) → Same d (tidied j id d)
unfolding tidied
tidied-Same j id d k =
    find-interrupt-Apart j none (tidy id d) (pending_name k) d (tidy-Apart id k d)

next_kind :
    (j : ℕ) (kind : Kind) (id : Text) (ns : List Name) (d : Disk)
    → Same d (interrupt j none (next_acts (record { kind = kind; id = id } ∷ ns)) d)
unfolding next_acts interrupt
next_kind j pending id ns d k = refl
next_kind j partial id ns d k = refl
next_kind j committed id ns d k = elim (Bool-cases (is_entry_id id)) [
  | inl good ↦ rw good (
      find-interrupt-Apart j none (cleanup (committed_name id)) (pending_name k) d
        (cleanup-Apart id k))
  | inr bad ↦ rw bad
]

pub next_Same : (j : ℕ) (ns : List Name) (d : Disk) → Same d (interrupt j none (next_acts ns) d)
unfolding next_acts interrupt
next_Same j [] d k = refl
next_Same j (n ∷ ns) d k = next_kind j n.kind n.id ns d k

pub Effect-Extends :
    (s : Setup) (id : Text) (p : Prepared) (d d' : Disk) → Effect s id p d d' → Extends d d'
Effect-Extends s id p d d' (inl same) = Same-Extends d d' same
Effect-Extends s id p d d' (inr grown) = Grown-Extends s id p d d' grown

pub Effect-Honest :
    (s : Setup) (p : Prepared) (d d' : Disk)
    → Effect s (id_of s p) p d d'
    → Honest s d
    → Honest s d'
Effect-Honest s p d d' (inl same) = Same-Honest s d d' same
Effect-Honest s p d d' (inr grown) = Grown-Honest s p d d' grown

pub no_memory {ℓ} : {A : Type ℓ} (m : Memory) → none ≡ some m → A
no_memory m h = absurd (ground arith)

-- A step that stops the process, or leaves its memory, and keeps every entry's directory.
pub quiet-Sound :
    (s : Setup) (w : World) (d : Disk)
    → Sound s w
    → Extends w.disk d
    → Honest s d
    → Sound s (record w { disk = d })
quiet-Sound s w d sound ext honest =
    extend-Sound s w (record w { disk = d }) sound ext honest (Remembers-same w.memory)
      (λ m is. Mapped-Extends s w.disk d m.entries ext (sound.mapped m is)) refl refl

pub dead-Sound :
    (s : Setup) (w : World) (d : Disk)
    → Sound s w
    → Extends w.disk d
    → Honest s d
    → Sound s (record w { disk = d; memory = none })
dead-Sound s w d sound ext honest =
    extend-Sound s w (record w { disk = d; memory = none }) sound ext honest
      (Remembers-none w.memory) (λ m is. no_memory m is) refl refl

pub reopen-Sound :
    (s : Setup) (w : World) (d : Disk) (m : Memory)
    → Sound s w
    → w.memory ≡ none
    → Reopened s w.disk d m.entries
    → Sound s (record w { disk = d; memory = some m })
reopen-Sound s w d m sound stopped r = record {
  honest = r.honest;
  mapped = λ m' is.
      let q : m ≡ m' = ground arith in subst (λ (x : Memory). Mapped s d x.entries) q r.mapped;
  kept =
      Honoured-map s w (record w { disk = d; memory = some m }) w.acknowledged
        (λ x k. elim k [
          | inl delivered ↦ inl delivered
          | inr (f, e, there, loads, same, known) ↦ inr (
            f,
            e,
            r.extends _ f there,
            loads,
            same,
            λ m' is.
                let q : m ≡ m' = ground arith in
                subst (λ (y : Memory). lookup (recording_id s x) y.entries ≡ some e) q
                  (r.read_all _ f e there loads),
          )
        ])
        sound.kept;
}
