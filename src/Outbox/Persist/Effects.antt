-- ===== src/Outbox/Persist/Effects.antt =====
-- What the operations may do to the directories of the entries.
use camvault.Prelude.{
  ℕ, ◌≡◌, refl, sym, ap, ◌∙◌, subst, true, Option, none, some, if◌then◌else◌, arith, Bool-cases,
  inl, inr, ◌⊎◌,
}
use camvault.Read.Range.{Text}
use camvault.Outbox.Disk.{Name, name_eq, Folder, Json, Manifest, Disk, find}
use camvault.Outbox.Disk.Laws.{name_eq→eq}
use camvault.Outbox.Entry.{Entry, loaded, load_entry, identifier_of, identifier}
use camvault.Outbox.Entry.Laws.{load_entry-Holds}
use camvault.Outbox.Persist.{
  Setup, Prepared, Memory, Plan, pending_name, manifest_of, json_of, write_files, interrupt,
  acts_of,
}
use camvault.Outbox.Persist.Laws.{
  written_folder, find-interrupt-Apart, find_interrupted, write_files-Apart,
}
use camvault.Outbox.Persist.Plans.{Planned, refusing, finding, leaving, writing}

-- Every entry's directory is as it was.
abbrev pub Same : Disk → Disk → Type 0
Same d d' = (j : Text) → find (pending_name j) d' ≡ find (pending_name j) d

-- A new entry is there, and the others are as they were.
abbrev pub Grown : Setup → Text → Prepared → Disk → Disk → Type 0
Grown s id p d d' =
    (find (pending_name id) d ≡ none)
    × ((j : Text)
        → find (pending_name j) d' ≡ (
            if name_eq (pending_name id) (pending_name j)
            then some (written_folder s p)
            else find (pending_name j) d))

-- No entry's directory is lost or changed.
abbrev pub Extends : Disk → Disk → Type 0
Extends d d' =
    (j : Text) (f : Folder) → find (pending_name j) d ≡ some f → find (pending_name j) d' ≡ some f

-- What loads from an entry's directory has the identifier that it is named for.
abbrev pub Honest : Setup → Disk → Type 0
Honest s d =
    (j : Text) (f : Folder) (e : Entry)
    → find (pending_name j) d ≡ some f
    → load_entry (pending_name j) f ≡ loaded e
    → identifier s.name_hash e ≡ j

pub Same-Extends : (d d' : Disk) → Same d d' → Extends d d'
Same-Extends d d' same j f h = same j ∙ h

pub Same-Honest : (s : Setup) (d d' : Disk) → Same d d' → Honest s d → Honest s d'
Same-Honest s d d' same honest j f e h l = honest j f e (sym (same j) ∙ h) l

pub Same-trans : (a b c : Disk) → Same a b → Same b c → Same a c
Same-trans a b c h k j = k j ∙ h j

pub pending_apart : (i j : Text) → name_eq (pending_name i) (pending_name j) ≡ true → i ≡ j
pending_apart i j h = ap (λ (n : Name). n.id) (name_eq→eq (pending_name i) (pending_name j) h)

-- What is in a grown disk is new, or was there.
Grown-cases :
    (s : Setup) (id : Text) (p : Prepared) (d d' : Disk) (j : Text)
    → Grown s id p d d'
    → ((id ≡ j) × (find (pending_name j) d' ≡ some (written_folder s p)))
      ⊎ (find (pending_name j) d' ≡ find (pending_name j) d)
Grown-cases s id p d d' j g = elim (Bool-cases (name_eq (pending_name id) (pending_name j))) [
  | inl same ↦ inl (pending_apart id j same, g.1 j ∙ rw same)
  | inr other ↦ inr (g.1 j ∙ rw other)
]

pub missing_some {ℓ} : {A : Type ℓ} {f : Folder} {o : Option Folder} → o ≡ none → o ≡ some f → A
missing_some h k = absurd (ground arith)

pub Grown-Extends :
    (s : Setup) (id : Text) (p : Prepared) (d d' : Disk) → Grown s id p d d' → Extends d d'
Grown-Extends s id p d d' g j f h = elim (Grown-cases s id p d d' j g) [
  | inl (same, found) ↦
      missing_some g.0 (subst (λ (i : Text). find (pending_name i) d ≡ some f) (sym same) h)
  | inr kept ↦ kept ∙ h
]

written_identifier :
    (s : Setup) (n : Name) (p : Prepared) (e : Entry)
    → load_entry n (written_folder s p) ≡ loaded e
    → identifier s.name_hash e ≡ identifier_of s.name_hash p.camera_id p.relative_path
unfolding json_of manifest_of
written_identifier s n p e l =
    let (json, h, c, same) = load_entry-Holds n (written_folder s p) e l in
    let there : some (manifest_of s p) ≡ some e.manifest =
      subst (λ (j : Json). j.content ≡ some e.manifest) {x = json} {y = json_of s (manifest_of s p)}
        (ground arith) c in
    let manifest : e.manifest ≡ manifest_of s p = ground arith in
    ap (λ (m : Manifest). identifier_of s.name_hash m.camera_id m.relative_path) manifest

pub Grown-Honest :
    (s : Setup) (p : Prepared) (d d' : Disk)
    → Grown s (identifier_of s.name_hash p.camera_id p.relative_path) p d d'
    → Honest s d
    → Honest s d'
Grown-Honest s p d d' g honest j f e h l =
    elim (Grown-cases s (identifier_of s.name_hash p.camera_id p.relative_path) p d d' j g) [
      | inl (same, found) ↦
          let whole : written_folder s p ≡ f = ground arith in
          written_identifier s (pending_name j) p e
            (subst (λ (x : Folder). load_entry (pending_name j) x ≡ loaded e) (sym whole) l)
          ∙ same
      | inr kept ↦ honest j f e (sym kept ∙ h) l
    ]

abbrev pub Effect : Setup → Text → Prepared → Disk → Disk → Type 0
Effect s id p d d' = Same d d' ⊎ Grown s id p d d'

pub Planned-Effect :
    (s : Setup) (m : Memory) (d : Disk) (free : ℕ) (id : Text) (p : Prepared) (a : Plan) (k : ℕ)
    (cut : Option ℕ)
    → Planned s m d free id p a
    → Effect s id p d (interrupt k cut (acts_of a) d)
unfolding interrupt
Planned-Effect s m d free id p a k cut refusing = inl (λ j. refl)
Planned-Effect s m d free id p a k cut (finding f e h l) = inl (λ j. refl)
Planned-Effect s m d free id p a k cut (leaving h) = inl (λ j.
    find-interrupt-Apart k cut (write_files id p) (pending_name j) d (write_files-Apart id j p))
Planned-Effect s m d free id p a k cut (writing h media metadata fits spare) =
    elim (find_interrupted s id p d k cut) [ inl same ↦ inl same | inr grown ↦ inr (h, grown) ]
