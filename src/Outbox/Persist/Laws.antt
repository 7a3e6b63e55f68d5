-- ===== src/Outbox/Persist/Laws.antt =====
-- What a folder holds after the acts of `_persist`, all or a first part.
use camvault.Prelude.{
  ℕ, zero, suc, ◌≡◌, refl, ap, ◌∙◌, List, [], ◌∷◌, ◌++◌, Bool, true, false, Option, none, some,
  if◌then◌else◌, All, inl, inr, ◌⊎◌,
}
use camvault.Read.Range.{Text}
use camvault.Outbox.Disk.{
  Name, name_eq, Folder, Disk, find, Act, make_folder, write_media, write_metadata, write_manifest,
  rename, unlink_media, unlink_metadata, unlink_manifest, remove_folder, change, apply, apply_all,
  empty_folder,
}
use camvault.Outbox.Disk.Laws.{
  touches, name_eq_refl, find-apply_apart, find-change, find-put, find-move,
}
use camvault.Outbox.Persist.{
  Setup, Prepared, pending_name, partial_name, manifest_of, json_of, write_files, commit, tear,
  interrupt, tidy, exists,
}

-- None of the acts changes the folder of this name.
abbrev pub Apart : Name → List Act → Type 0
Apart n acts = All (λ a. touches a n ≡ false) acts

tear_apart :
    (cut : Option ℕ) (a : Act) (n : Name) (d : Disk)
    → touches a n ≡ false
    → find n (tear cut a d) ≡ find n d
unfolding tear
tear_apart none a n d h = refl
tear_apart (some cut) (make_folder m) n d h = refl
tear_apart (some cut) (write_media m bytes) n d h = find-apply_apart (write_media m _) n d h
tear_apart (some cut) (write_metadata m bytes) n d h = find-apply_apart (write_metadata m _) n d h
tear_apart (some cut) (write_manifest m json) n d h = find-apply_apart (write_manifest m _) n d h
tear_apart (some cut) (rename m k) n d h = refl
tear_apart (some cut) (unlink_media m) n d h = refl
tear_apart (some cut) (unlink_metadata m) n d h = refl
tear_apart (some cut) (unlink_manifest m) n d h = refl
tear_apart (some cut) (remove_folder m) n d h = refl

pub find-interrupt-Apart :
    (k : ℕ) (cut : Option ℕ) (acts : List Act) (n : Name) (d : Disk)
    → Apart n acts
    → find n (interrupt k cut acts d) ≡ find n d
unfolding interrupt
find-interrupt-Apart k cut [] n d h = refl
find-interrupt-Apart zero cut (a ∷ acts) n d h = tear_apart cut a n d h.0
find-interrupt-Apart (suc k) cut (a ∷ acts) n d h =
    find-interrupt-Apart k cut acts n (apply a d) h.1 ∙ find-apply_apart a n d h.0

pub find-apply_all-Apart :
    (acts : List Act) (n : Name) (d : Disk) → Apart n acts → find n (apply_all acts d) ≡ find n d
unfolding apply_all
find-apply_all-Apart [] n d h = refl
find-apply_all-Apart (a ∷ acts) n d h =
    find-apply_all-Apart acts n (apply a d) h.1 ∙ find-apply_apart a n d h.0

-- A last act that leaves nothing when it is cut short has happened in full, or not at all.
pub interrupt_last :
    (k : ℕ) (cut : Option ℕ) (acts : List Act) (a : Act) (d : Disk)
    → ((d' : Disk) → tear cut a d' ≡ d')
    → (interrupt k cut (acts ++ a ∷ []) d ≡ interrupt k cut acts d)
      ⊎ (interrupt k cut (acts ++ a ∷ []) d ≡ apply a (apply_all acts d))
unfolding interrupt apply_all
interrupt_last zero cut [] a d h = inl (h d)
interrupt_last (suc k) cut [] a d h = inr refl
interrupt_last zero cut (b ∷ acts) a d h = inl refl
interrupt_last (suc k) cut (b ∷ acts) a d h = interrupt_last k cut acts a (apply b d) h

tear_rename : (cut : Option ℕ) (n m : Name) (d : Disk) → tear cut (rename n m) d ≡ d
unfolding tear
tear_rename none n m d = refl
tear_rename (some cut) n m d = refl

-- The three kinds of names are apart.
pub partial_not_pending : (i j : Text) → name_eq (partial_name i) (pending_name j) ≡ false
unfolding name_eq
partial_not_pending i j = refl

-- The folder that `_persist` writes.
abbrev pub written_folder : Setup → Prepared → Folder
written_folder s p = record {
  media = some p.media;
  metadata = some p.metadata;
  manifest = some (json_of s (manifest_of s p));
}

-- The acts before the directory is renamed.
abbrev before_rename : Setup → Text → Prepared → List Act
before_rename s id p =
    write_files id p ++ write_manifest (partial_name id) (json_of s (manifest_of s p)) ∷ []

acts_split :
    (s : Setup) (id : Text) (p : Prepared)
    → write_files id p ++ commit s id p
      ≡ before_rename s id p ++ rename (partial_name id) (pending_name id) ∷ []
unfolding write_files commit
acts_split s id p = refl

before_rename-Apart :
    (s : Setup) (id j : Text) (p : Prepared) → Apart (pending_name j) (before_rename s id p)
unfolding write_files name_eq
before_rename-Apart s id j p = (refl, (refl, (refl, (refl, tt))))

find_made : (n : Name) (d : Disk) → find n (apply (make_folder n) d) ≡ some empty_folder
unfolding apply
find_made n d = find-put n n empty_folder d ∙ rw (name_eq_refl n)

pub find_changed :
    (n : Name) (g : Folder → Folder) (d : Disk) (f : Folder)
    → find n d ≡ some f
    → find n (change n g d) ≡ some (g f)
find_changed n g d f h = find-change n n g d f h ∙ rw (name_eq_refl n)

find-before_rename :
    (s : Setup) (id : Text) (p : Prepared) (d : Disk)
    → find (partial_name id) (apply_all (before_rename s id p) d) ≡ some (written_folder s p)
unfolding apply_all apply write_files
find-before_rename s id p d =
    let n = partial_name id in
    let made = apply (make_folder n) d in
    let with_media = apply (write_media n p.media) made in
    let with_metadata = apply (write_metadata n p.metadata) with_media in
    find_changed n _ with_metadata _
      (find_changed n _ with_media _ (find_changed n _ made _ (find_made n d)))

pub find_renamed :
    (n k m : Name) (d : Disk) (f : Folder)
    → find n d ≡ some f
    → find m (apply (rename n k) d)
      ≡ (if name_eq k m then some f else if name_eq n m then none else find m d)
unfolding apply
find_renamed n k m d f h = find-move n k m d f h

find_committed :
    (s : Setup) (id j : Text) (p : Prepared) (d : Disk)
    → find
        (pending_name j)
        (apply (rename (partial_name id) (pending_name id)) (apply_all (before_rename s id p) d))
      ≡ (if name_eq (pending_name id) (pending_name j)
          then some (written_folder s p)
          else find (pending_name j) d)
find_committed s id j p d =
    find_renamed (partial_name id) (pending_name id) (pending_name j) _ _
      (find-before_rename s id p d)
    ∙ rw (
      partial_not_pending id j,
      find-apply_all-Apart (before_rename s id p) (pending_name j) d (before_rename-Apart s id j p),
    )

-- Where an entry may be found after a write: the new one is whole, and any other one is as it was.
pub find_all_written :
    (s : Setup) (id j : Text) (p : Prepared) (d : Disk)
    → find (pending_name j) (apply_all (write_files id p ++ commit s id p) d) ≡ (
        if name_eq (pending_name id) (pending_name j)
        then some (written_folder s p)
        else find (pending_name j) d)
unfolding apply_all write_files commit
find_all_written s id j p d = find_committed s id j p d

-- An interrupted write has left every entry as it was, or has done all.
pub find_interrupted :
    (s : Setup) (id : Text) (p : Prepared) (d : Disk) (k : ℕ) (cut : Option ℕ)
    → let after = interrupt k cut (write_files id p ++ commit s id p) d in
      ((j : Text) → find (pending_name j) after ≡ find (pending_name j) d)
      ⊎ ((j : Text)
          → find (pending_name j) after ≡ (
              if name_eq (pending_name id) (pending_name j)
              then some (written_folder s p)
              else find (pending_name j) d))
unfolding commit write_files
find_interrupted s id p d k cut =
    elim (interrupt_last k cut (before_rename s id p) (rename (partial_name id) (pending_name id)) d
      (tear_rename cut (partial_name id) (pending_name id))) [
        | inl before ↦ inl (λ j.
            ap (find (pending_name j)) before
            ∙ find-interrupt-Apart k cut (before_rename s id p) (pending_name j) d
                (before_rename-Apart s id j p))
        | inr after ↦ inr (λ j. ap (find (pending_name j)) after ∙ find_committed s id j p d)
      ]

pub write_files-Apart : (id j : Text) (p : Prepared) → Apart (pending_name j) (write_files id p)
unfolding write_files name_eq
write_files-Apart id j p = (refl, (refl, (refl, tt)))

Apart-if : (n : Name) (acts : List Act) (b : Bool) → Apart n acts → Apart n (if b then acts else [])
Apart-if n acts true h = h
Apart-if n acts false h = tt

pub tidy-Apart : (id j : Text) (d : Disk) → Apart (pending_name j) (tidy id d)
unfolding tidy name_eq
tidy-Apart id j d =
    Apart-if (pending_name j) _ (exists (partial_name id) d) (refl, (refl, (refl, (refl, tt))))
