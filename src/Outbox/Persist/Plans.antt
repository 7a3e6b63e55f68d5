-- ===== src/Outbox/Persist/Plans.antt =====
-- What `plan` has checked before it writes.
use camvault.Prelude.{
  ℕ, ◌+◌, ◌≤◌, ◌≡◌, refl, subst, ◌++◌, ◌&&◌, none, some, ltb, ◌==◌, length, arith, Bool-cases,
  Option-cases, inl, inr,
}
use camvault.Read.Range.{Text}
use camvault.Outbox.Disk.{Folder, Disk, find}
use camvault.Outbox.Entry.{Entry, Loaded, corrupt, uncaught, loaded, load_entry, identifier_of}
use camvault.Outbox.Persist.{
  Setup, Prepared, Memory, Plan, refuse, present, uneven, write, pending_name, partial_name, exists,
  manifest_of, write_files, commit, present_entry, write_plan, new_plan, needed, plan,
}

unfoldable pub new_entry : Setup → Text → Prepared → Entry
new_entry s id p = record {
  folder = pending_name id;
  manifest = manifest_of s p;
  json_size = s.json_size (manifest_of s p);
}

-- A plan that writes nothing, one that leaves the files, and one that writes an entry; the last two
-- fit, and nothing of their identifier is there.
pub data Planned (s : Setup) (m : Memory) (d : Disk) (free : ℕ) (id : Text) (p : Prepared)
    : Plan → Type 0 where
  refusing : Planned s m d free id p refuse
  finding :
      (f : Folder) (e : Entry)
      → find (pending_name id) d ≡ some f
      → load_entry (pending_name id) f ≡ loaded e
      → Planned s m d free id p (present e)
  leaving : find (pending_name id) d ≡ none → Planned s m d free id p (uneven (write_files id p))
  writing :
      find (pending_name id) d ≡ none
      → length p.media ≡ p.media_size
      → length p.metadata ≡ p.metadata_size
      → m.used + needed p ≤ s.max_bytes
      → needed p + s.min_free ≤ free
      → Planned s m d free id p (write (new_entry s id p) (write_files id p ++ commit s id p))

module _ (s : Setup) (m : Memory) (d : Disk) (free : ℕ) (id : Text) (p : Prepared) where
  present_entry-Planned :
      (f : Folder) (l : Loaded)
      → find (pending_name id) d ≡ some f
      → load_entry (pending_name id) f ≡ l
      → Planned s m d free id p (present_entry l)
  unfolding present_entry
  present_entry-Planned f corrupt h k = refusing
  present_entry-Planned f uncaught h k = refusing
  present_entry-Planned f (loaded e) h k = finding f e h k

  write_plan-Planned :
      find (pending_name id) d ≡ none
      → m.used + needed p ≤ s.max_bytes
      → needed p + s.min_free ≤ free
      → Planned s m d free id p (write_plan s id p)
  unfolding write_plan new_entry
  write_plan-Planned h fits spare =
      elim (Bool-cases (length p.media == p.media_size && length p.metadata == p.metadata_size)) [
        | inl even ↦ rw even (writing h (ground arith) (ground arith) fits spare)
        | inr odd ↦ rw odd (leaving h)
      ]

  new_plan-Planned :
      find (pending_name id) d ≡ none → Planned s m d free id p (new_plan s m d free id p)
  unfolding new_plan
  new_plan-Planned h = elim (Bool-cases (ltb s.max_bytes (m.used + needed p))) [
    | inl full ↦ rw full refusing
    | inr fits ↦ rw fits (elim (Bool-cases (ltb free (needed p + s.min_free))) [
      | inl short ↦ rw short refusing
      | inr spare ↦ rw spare (elim (Bool-cases (exists (partial_name id) d)) [
        | inl left ↦ rw left refusing
        | inr clear ↦ rw clear (write_plan-Planned h (ground arith) (ground arith))
      ])
    ])
  ]

pub plan-Planned :
    (s : Setup) (m : Memory) (d : Disk) (free : ℕ) (p : Prepared)
    → Planned s m d free
        (identifier_of s.name_hash p.camera_id p.relative_path)
        p
        (plan s m d free p)
unfolding plan
plan-Planned s m d free p =
    let id = identifier_of s.name_hash p.camera_id p.relative_path in
    elim (Option-cases (find (pending_name id) d)) [
      | inl missing ↦ rw (missing, plan) (new_plan-Planned s m d free id p missing)
      | inr (f, there) ↦ rw (there, plan) (present_entry-Planned s m d free id p f _ there refl)
    ]

module _ (s : Setup) (m : Memory) (d : Disk) (free : ℕ) (id : Text) (p : Prepared) where
  -- What a plan says, by what it is.
  abbrev pub Facts : Plan → Type 0
  Facts refuse = Unit {0}
  Facts (present e) =
      (f : Folder) × (find (pending_name id) d ≡ some f)
      × (load_entry (pending_name id) f ≡ loaded e)
  Facts (uneven acts) = acts ≡ write_files id p
  Facts (write e acts) =
      (find (pending_name id) d ≡ none)
      × (e ≡ new_entry s id p)
      × (acts ≡ write_files id p ++ commit s id p)
      × (m.used + needed p ≤ s.max_bytes)
      × (length p.media ≡ p.media_size)
      × (length p.metadata ≡ p.metadata_size)
      × (needed p + s.min_free ≤ free)

  Planned-Facts : (a : Plan) → Planned s m d free id p a → Facts a
  Planned-Facts refuse refusing = tt
  Planned-Facts (present e) (finding f e' h l) = (f, h, l)
  Planned-Facts (uneven acts) (leaving h) = refl
  Planned-Facts (write e acts) (writing h media metadata fits spare) =
      (h, refl, refl, fits, media, metadata, spare)

pub plan-Facts :
    (s : Setup) (m : Memory) (d : Disk) (free : ℕ) (p : Prepared) (a : Plan)
    → plan s m d free p ≡ a
    → Facts s m d free (identifier_of s.name_hash p.camera_id p.relative_path) p a
plan-Facts s m d free p a h =
    let id = identifier_of s.name_hash p.camera_id p.relative_path in
    subst (Facts s m d free id p) h (Planned-Facts s m d free id p _ (plan-Planned s m d free p))
