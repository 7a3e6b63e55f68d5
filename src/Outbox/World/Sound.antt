-- ===== src/Outbox/World/Sound.antt =====
-- The invariant of the outbox, and what keeps it.
use camvault.Prelude.{
  ◌≡◌, sym, ap, ◌∙◌, subst, List, [], ◌∷◌, ◌++◌, Option, none, some, arith, All, length, text_eq,
  text_eq→eq, text_eq_refl, Bool-cases, Option-cases, inl, inr, ◌⊎◌,
}
use camvault.Read.Range.{Text}
use camvault.Outbox.Disk.{Manifest, Folder, Disk, find}
use camvault.Outbox.Entry.{Entry, loaded, load_entry, identifier}
use camvault.Outbox.Persist.{Setup, Prepared, Memory, pending_name, lookup, register}
use camvault.Outbox.Persist.Effects.{Extends, Honest}
use camvault.Outbox.Lookup.{lookup-append}
use camvault.Outbox.Open.Recovered.{Placed, Mapped, Mapped-lookup}
use camvault.Outbox.World.{Recording, Receipt, wrote, already, recording, recording_id, World}

abbrev pub In : Recording → List Recording → Type 0
In r [] = ⊥
In r (x ∷ xs) = (x ≡ r) ⊎ In r xs

-- The recording's files and manifest are in the directory of its identifier, which loads; and while
-- the process runs the entry is in its memory.
abbrev pub Held : Setup → Disk → Option Memory → Recording → Type 0
Held s d memory r =
    (f : Folder) × (e : Entry) × (find (pending_name (recording_id s r)) d ≡ some f)
    × (load_entry (pending_name (recording_id s r)) f ≡ loaded e)
    × (recording e.manifest f ≡ r)
    × ((m : Memory) → memory ≡ some m → lookup (recording_id s r) m.entries ≡ some e)

-- A recording is with the remote, or the outbox holds it.
abbrev pub Kept : Setup → World → Recording → Type 0
Kept s w r = In r w.remote ⊎ Held s w.disk w.memory r

-- The manifest that a batch is to get.
abbrev pub batch_manifest : Setup → Prepared → Manifest
batch_manifest s p = record {
  camera_id = p.camera_id;
  relative_path = p.relative_path;
  plaintext_size = p.plaintext_size;
  media_size = length p.media;
  metadata_size = length p.metadata;
  media_hash = s.data_hash p.media;
  metadata_hash = s.data_hash p.metadata;
}

-- The recording of a receipt: for a batch that was written, exactly its files and the manifest of
-- these; for one whose entry was there already, one whose `camera_id/relative_path` has the batch's
-- digest.
abbrev pub RecordingOf : Setup → Receipt → Recording → Type 0
RecordingOf s (wrote p) r =
    r ≡ record { manifest = batch_manifest s p; media = some p.media; metadata = some p.metadata }
RecordingOf s (already p) r =
    s.name_hash (r.manifest.camera_id ++ b'/' ∷ r.manifest.relative_path)
    ≡ s.name_hash (p.camera_id ++ b'/' ∷ p.relative_path)

abbrev pub Honoured : Setup → World → Receipt → Type 0
Honoured s w a = (r : Recording) × RecordingOf s a r × Kept s w r

pub record Sound (s : Setup) (w : World) : Type 0 where
  pub honest : Honest s w.disk
  pub mapped : (m : Memory) → w.memory ≡ some m → Mapped s w.disk m.entries
  pub kept : All (Honoured s w) w.acknowledged

pub All-map {ℓ κ μ} :
    {A : Type ℓ} {P : A → Type κ} {Q : A → Type μ} (xs : List A)
    → ((x : A) → P x → Q x)
    → All P xs
    → All Q xs
All-map [] f h = tt
All-map (x ∷ xs) f h = (f x h.0, All-map xs f h.1)

pub Honoured-map :
    (s : Setup) (w after : World) (rs : List Receipt)
    → ((r : Recording) → Kept s w r → Kept s after r)
    → All (Honoured s w) rs
    → All (Honoured s after) rs
Honoured-map s w after rs f = All-map rs λ a (r, is, k). (r, is, f r k)

-- Memory keeps every entry.
abbrev pub Remembers : Option Memory → Option Memory → Type 0
Remembers memory after =
    (m' : Memory)
    → after ≡ some m'
    → (m : Memory) × (memory ≡ some m)
      × ((i : Text) (e : Entry) → lookup i m.entries ≡ some e → lookup i m'.entries ≡ some e)

pub Held-Extends :
    (s : Setup) (d d' : Disk) (memory after : Option Memory) (r : Recording)
    → Extends d d'
    → Remembers memory after
    → Held s d memory r
    → Held s d' after r
Held-Extends s d d' memory after r ext remembers (f, e, there, loads, same, known) = (
  f,
  e,
  ext _ f there,
  loads,
  same,
  λ m' is. let (m, was, keeps) = remembers m' is in keeps _ e (known m was),
)

pub Remembers-same : (memory : Option Memory) → Remembers memory memory
Remembers-same memory m is = (m, is, λ i e h. h)

pub Remembers-none : (memory : Option Memory) → Remembers memory none
Remembers-none memory m is = absurd (ground arith)

Mapped-append :
    (s : Setup) (d : Disk) (es : List (Text × Entry)) (i : Text) (e : Entry)
    → Mapped s d es
    → Placed s d (i, e)
    → Mapped s d (es ++ (i, e) ∷ [])
Mapped-append s d [] i e m p = (p, tt)
Mapped-append s d (x ∷ es) i e m p = (m.0, Mapped-append s d es i e m.1 p)

-- What `_register` gives, for an entry whose directory is there.
pub record Registered (s : Setup) (d : Disk) (e : Entry) (m after : Memory) : Type 0 where
  pub there : lookup (identifier s.name_hash e) after.entries ≡ some e
  pub keeps :
      (i : Text) (old : Entry) → lookup i m.entries ≡ some old → lookup i after.entries ≡ some old
  pub mapped : Mapped s d after.entries

-- A directory loads as one entry.
pub one_entry :
    (s : Setup) (d : Disk) (i : Text) (a b : Entry) → Placed s d (i, a) → Placed s d (i, b) → a ≡ b
one_entry s d i a b p q =
    let (f, there, loads, id) = p in
    let (g, there', loads', id') = q in
    let same : f ≡ g = let r : some f ≡ some g = sym there ∙ there' in ground arith in
    let r : loaded a ≡ loaded b = sym loads ∙ ap (load_entry (pending_name i)) same ∙ loads' in
    ground arith

pub register-Registered :
    (s : Setup) (d : Disk) (e : Entry) (m : Memory)
    → Placed s d (identifier s.name_hash e, e)
    → Mapped s d m.entries
    → Registered s d e m (register s e m)
unfolding register
register-Registered s d e m placed mapped =
    elim (Option-cases (lookup (identifier s.name_hash e) m.entries)) [
      | inl new ↦
          let i = identifier s.name_hash e in
          rw (new, register)
            (record {
              there = lookup-append i i e m.entries new ∙ rw (text_eq_refl i);
              keeps = λ j old h.
                  lookup-append i j e m.entries new ∙ elim (Bool-cases (text_eq i j)) [
                    | inl same ↦
                        let gone : lookup j m.entries ≡ none =
                          subst (λ (x : Text). lookup x m.entries ≡ none) (text_eq→eq i j same)
                            new in
                        absurd (ground arith)
                    | inr other ↦ rw (other, h)
                  ];
              mapped = Mapped-append s d m.entries i e mapped placed;
            })
      | inr (old, known) ↦
          let same =
            one_entry s d (identifier s.name_hash e) old e
              (Mapped-lookup s d m.entries (identifier s.name_hash e) old mapped known) placed in
          rw (known, register)
            (record {
              there = known ∙ ap (λ (x : Entry). some x) same;
              keeps = λ j other h. h;
              mapped = mapped;
            })
    ]
