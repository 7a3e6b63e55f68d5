-- ===== src/Outbox/Open/Scans.antt =====
-- What the scan does for one directory, case by case.
use camvault.Prelude.{
  ◌≡◌, refl, subst, true, false, Option, none, some, arith, text_eq, text_eq→eq, text_eq_refl,
  Bool-cases, Option-cases, inl, inr,
}
use camvault.Read.Range.{Text}
use camvault.Outbox.Disk.{
  Name, Kind, pending, partial, committed, Folder, Disk, find, rename, apply, apply_all,
}
use camvault.Outbox.Entry.{
  Entry, Loaded, corrupt, uncaught, loaded, load_entry, identifier, is_entry_id,
}
use camvault.Outbox.Persist.{Setup, pending_name, partial_name, committed_name, exists}
use camvault.Outbox.Replay.{cleanup}
use camvault.Outbox.Open.{Scan, retain, add_entry, settle, scan_loaded, scan_folder, scan_one}

pub data Scans (s : Setup) (c : Scan) : Option Scan → Type 0 where
  stopping : Scans s c none
  cleaning :
      (i : Text)
      → Scans s c (some (record c { disk = apply_all (cleanup (committed_name i)) c.disk }))
  retaining : (f : Folder) → Scans s c (some (retain f c))
  adding :
      (f : Folder) (e : Entry)
      → find (pending_name (identifier s.name_hash e)) c.disk ≡ some f
      → load_entry (pending_name (identifier s.name_hash e)) f ≡ loaded e
      → Scans s c (some (add_entry s e c))
  renaming :
      (i : Text) (f : Folder) (e : Entry)
      → find (partial_name i) c.disk ≡ some f
      → load_entry (partial_name i) f ≡ loaded e
      → find (pending_name (identifier s.name_hash e)) c.disk ≡ none
      → Scans s c (
          some (
            add_entry s
              (record e { folder = pending_name (identifier s.name_hash e) })
              (record c {
                disk =
                    apply
                      (rename (partial_name i) (pending_name (identifier s.name_hash e)))
                      c.disk;
              })))

exists_missing : (n : Name) (d : Disk) → exists n d ≡ false → find n d ≡ none
exists_missing n d h = elim (Option-cases (find n d)) [
  | inl missing ↦ missing
  | inr (f, there) ↦ absurd (ground arith)
]

module _ (s : Setup) (c : Scan) where
  settle_pending :
      (i : Text) (f : Folder) (e : Entry)
      → find (pending_name i) c.disk ≡ some f
      → load_entry (pending_name i) f ≡ loaded e
      → Scans s c (some (settle s (pending_name i) f e c))
  unfolding settle
  settle_pending i f e h l = elim (Bool-cases (text_eq i (identifier s.name_hash e))) [
    | inl same ↦
        let q : i ≡ identifier s.name_hash e = text_eq→eq i _ same in
        rw same (
          adding f e (subst (λ (j : Text). find (pending_name j) c.disk ≡ some f) q h)
            (subst (λ (j : Text). load_entry (pending_name j) f ≡ loaded e) q l))
    | inr other ↦ rw other (retaining f)
  ]

  settle_partial :
      (i : Text) (f : Folder) (e : Entry)
      → find (partial_name i) c.disk ≡ some f
      → load_entry (partial_name i) f ≡ loaded e
      → Scans s c (some (settle s (partial_name i) f e c))
  unfolding settle
  settle_partial i f e h l =
      elim (Bool-cases (exists (pending_name (identifier s.name_hash e)) c.disk)) [
        | inl there ↦ rw there (retaining f)
        | inr missing ↦ rw missing (
            renaming i f e h l
              (exists_missing (pending_name (identifier s.name_hash e)) c.disk missing))
      ]

  loaded_pending :
      (i : Text) (f : Folder) (l : Loaded)
      → find (pending_name i) c.disk ≡ some f
      → load_entry (pending_name i) f ≡ l
      → Scans s c (scan_loaded s (pending_name i) f c l)
  unfolding scan_loaded
  loaded_pending i f corrupt h k = retaining f
  loaded_pending i f uncaught h k = stopping
  loaded_pending i f (loaded e) h k = settle_pending i f e h k

  loaded_partial :
      (i : Text) (f : Folder) (l : Loaded)
      → find (partial_name i) c.disk ≡ some f
      → load_entry (partial_name i) f ≡ l
      → Scans s c (scan_loaded s (partial_name i) f c l)
  unfolding scan_loaded
  loaded_partial i f corrupt h k = retaining f
  loaded_partial i f uncaught h k = stopping
  loaded_partial i f (loaded e) h k = settle_partial i f e h k

  folder_pending :
      (i : Text) (o : Option Folder)
      → find (pending_name i) c.disk ≡ o
      → Scans s c (scan_folder s (pending_name i) c o)
  unfolding scan_folder
  folder_pending i none h = stopping
  folder_pending i (some f) h = loaded_pending i f _ h refl

  folder_partial :
      (i : Text) (o : Option Folder)
      → find (partial_name i) c.disk ≡ o
      → Scans s c (scan_folder s (partial_name i) c o)
  unfolding scan_folder
  folder_partial i none h = stopping
  folder_partial i (some f) h = loaded_partial i f _ h refl

  scan_kind : (k : Kind) (i : Text) → Scans s c (scan_one s (record { kind = k; id = i }) c)
  unfolding scan_one
  scan_kind pending i = folder_pending i _ refl
  scan_kind partial i = folder_partial i _ refl
  scan_kind committed i = elim (Bool-cases (is_entry_id i)) [
    | inl good ↦ rw good (cleaning i)
    | inr bad ↦ rw bad stopping
  ]

  pub scan_one-Scans : (n : Name) → Scans s c (scan_one s n c)
  scan_one-Scans n = scan_kind n.kind n.id

  -- An entry's directory that loads is added.
  pub scan_one_entry :
      (i : Text) (f : Folder) (e : Entry)
      → find (pending_name i) c.disk ≡ some f
      → load_entry (pending_name i) f ≡ loaded e
      → identifier s.name_hash e ≡ i
      → scan_one s (pending_name i) c ≡ some (add_entry s e c)
  unfolding scan_one scan_folder scan_loaded settle
  scan_one_entry i f e h l q =
      let same : text_eq i (identifier s.name_hash e) ≡ true =
        subst (λ (j : Text). text_eq j (identifier s.name_hash e) ≡ true) q
          (text_eq_refl (identifier s.name_hash e)) in
      rw (h, scan_folder, l, scan_loaded, same)
