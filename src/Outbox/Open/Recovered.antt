-- ===== src/Outbox/Open/Recovered.antt =====
-- What the scan has kept and read, after any number of directories.
use camvault.Prelude.{
  ◌≡◌, refl, sym, ap, ◌∙◌, subst, List, [], ◌∷◌, Option, none, some, if◌then◌else◌, arith, All,
  text_eq, text_eq→eq, Bool-cases, inl, inr,
}
use camvault.Read.Range.{Text}
use camvault.Outbox.Disk.{Name, name_eq, Folder, Disk, find, rename, apply, apply_all}
use camvault.Outbox.Disk.Laws.{name_eq_refl}
use camvault.Outbox.Entry.{Entry, loaded, load_entry, identifier}
use camvault.Outbox.Entry.Laws.{relocate-load_entry, relocate}
use camvault.Outbox.Persist.{Setup, pending_name, partial_name, committed_name, lookup}
use camvault.Outbox.Persist.Laws.{Apart, find-apply_all-Apart, find_renamed, partial_not_pending}
use camvault.Outbox.Persist.Effects.{
  Same, Extends, Honest, Same-Extends, Same-Honest, pending_apart, missing_some,
}
use camvault.Outbox.Replay.{cleanup}
use camvault.Outbox.Open.{Scan, retain, add_entry, set_key}
use camvault.Outbox.Open.Scans.{Scans, stopping, cleaning, retaining, adding, renaming}

-- An entry in memory is what the directory of its key loads.
abbrev pub Placed : Setup → Disk → Text × Entry → Type 0
Placed s d (i, e) =
    (f : Folder) × (find (pending_name i) d ≡ some f)
    × (load_entry (pending_name i) f ≡ loaded e)
    × (identifier s.name_hash e ≡ i)

abbrev pub Mapped : Setup → Disk → List (Text × Entry) → Type 0
Mapped s d es = All (Placed s d) es

pub record Recovered (s : Setup) (before : Disk) (c : Scan) : Type 0 where
  pub extends : Extends before c.disk
  pub honest : Honest s c.disk
  pub mapped : Mapped s c.disk c.entries

pub Mapped-lookup :
    (s : Setup) (d : Disk) (es : List (Text × Entry)) (i : Text) (e : Entry)
    → Mapped s d es
    → lookup i es ≡ some e
    → Placed s d (i, e)
unfolding lookup
Mapped-lookup s d [] i e m h = absurd (ground arith)
Mapped-lookup s d ((k, old) ∷ es) i e m h = elim (Bool-cases (text_eq k i)) [
  | inl same ↦
      let one : old ≡ e = ground arith in
      subst (λ (x : Entry). Placed s d (i, x)) one
        (subst (λ (x : Text). Placed s d (x, old)) (text_eq→eq k i same) m.0)
  | inr other ↦ Mapped-lookup s d es i e m.1 (rw other at h)
]

pub Mapped-Extends :
    (s : Setup) (d d' : Disk) (es : List (Text × Entry))
    → Extends d d'
    → Mapped s d es
    → Mapped s d' es
Mapped-Extends s d d' [] ext m = tt
Mapped-Extends s d d' ((k, e) ∷ es) ext m =
    let (g, there, loads, id) = m.0 in
    ((g, ext k g there, loads, id), Mapped-Extends s d d' es ext m.1)

Mapped-set_key :
    (s : Setup) (d : Disk) (i : Text) (e : Entry) (es : List (Text × Entry))
    → Placed s d (i, e)
    → Mapped s d es
    → Mapped s d (set_key i e es)
unfolding set_key
Mapped-set_key s d i e [] p m = (p, tt)
Mapped-set_key s d i e ((k, old) ∷ es) p m = elim (Bool-cases (text_eq k i)) [
  | inl same ↦ rw same (subst (λ (x : Text). Placed s d (x, e)) (sym (text_eq→eq k i same)) p, m.1)
  | inr other ↦ rw other (m.0, Mapped-set_key s d i e es p m.1)
]

pub cleanup-Apart : (i j : Text) → Apart (pending_name j) (cleanup (committed_name i))
unfolding cleanup name_eq
cleanup-Apart i j = (refl, (refl, (refl, (refl, tt))))

-- A cleanup changes no entry's directory.
pub cleaned-Same : (i : Text) (d : Disk) → Same d (apply_all (cleanup (committed_name i)) d)
cleaned-Same i d j = find-apply_all-Apart _ (pending_name j) d (cleanup-Apart i j)

abbrev pub RecoveredIf : Setup → Disk → Option Scan → Type 0
RecoveredIf s before none = Unit {0}
RecoveredIf s before (some c) = Recovered s before c

-- A rename to a name that is free adds the entry there, and keeps the others.
renamed_find :
    (i j k : Text) (d : Disk) (f : Folder)
    → find (partial_name i) d ≡ some f
    → find (pending_name k) (apply (rename (partial_name i) (pending_name j)) d)
      ≡ (if name_eq (pending_name j) (pending_name k) then some f else find (pending_name k) d)
renamed_find i j k d f h =
    find_renamed (partial_name i) (pending_name j) (pending_name k) d f h
    ∙ rw (partial_not_pending i k)

renamed_Extends :
    (i j : Text) (d : Disk) (f : Folder)
    → find (partial_name i) d ≡ some f
    → find (pending_name j) d ≡ none
    → Extends d (apply (rename (partial_name i) (pending_name j)) d)
renamed_Extends i j d f h free k g there =
    elim (Bool-cases (name_eq (pending_name j) (pending_name k))) [
      | inl same ↦
          let q : j ≡ k = pending_apart j k same in
          missing_some free (subst (λ (x : Text). find (pending_name x) d ≡ some g) (sym q) there)
      | inr other ↦ renamed_find i j k d f h ∙ (rw other there)
    ]

renamed_load :
    (n m : Name) (f : Folder) (e : Entry)
    → load_entry n f ≡ loaded e
    → load_entry m f ≡ loaded (record e { folder = m })
renamed_load n m f e l = relocate-load_entry n m f ∙ ap (relocate m) l

renamed_Honest :
    (s : Setup) (i : Text) (d : Disk) (f : Folder) (e : Entry)
    → find (partial_name i) d ≡ some f
    → load_entry (partial_name i) f ≡ loaded e
    → Honest s d
    → Honest s (apply (rename (partial_name i) (pending_name (identifier s.name_hash e))) d)
renamed_Honest s i d f e h l honest k g e' there loads =
    let j = identifier s.name_hash e in
    elim (Bool-cases (name_eq (pending_name j) (pending_name k))) [
      | inl same ↦
          let q : f ≡ g =
            let r : (if name_eq (pending_name j) (pending_name k)
                  then some f
                  else find (pending_name k) d)
                ≡ some g =
              sym (renamed_find i j k d f h) ∙ there in
            ground arith in
          let now = renamed_load (partial_name i) (pending_name k) f e l in
          let one : record e { folder = pending_name k } ≡ e' =
            let r : loaded (record e { folder = pending_name k }) ≡ loaded e' =
              sym now ∙ ap (load_entry (pending_name k)) q ∙ loads in
            ground arith in
          ap (identifier s.name_hash) (sym one) ∙ pending_apart j k same
      | inr other ↦ honest k g e' (rw other at (sym (renamed_find i j k d f h) ∙ there)) loads
    ]

pub Scans-Recovered :
    (s : Setup) (before : Disk) (c : Scan) (o : Option Scan)
    → Recovered s before c
    → Scans s c o
    → RecoveredIf s before o
unfolding retain add_entry
Scans-Recovered s before c none r stopping = tt
Scans-Recovered s before c (some after) r (cleaning i) =
    let same = cleaned-Same i c.disk in
    record {
      extends = λ j f h. same j ∙ r.extends j f h;
      honest = Same-Honest s c.disk _ same r.honest;
      mapped = Mapped-Extends s c.disk _ c.entries (Same-Extends c.disk _ same) r.mapped;
    }
Scans-Recovered s before c (some after) r (retaining f) = record {
  extends = r.extends;
  honest = r.honest;
  mapped = r.mapped;
}
Scans-Recovered s before c (some after) r (adding f e h l) = record {
  extends = r.extends;
  honest = r.honest;
  mapped = Mapped-set_key s c.disk (identifier s.name_hash e) e c.entries (f, h, l, refl) r.mapped;
}
Scans-Recovered s before c (some after) r (renaming i f e h l free) =
    let j = identifier s.name_hash e in
    let ext = renamed_Extends i j c.disk f h free in
    let there = renamed_find i j j c.disk f h ∙ rw (name_eq_refl (pending_name j)) in
    record {
      extends = λ k g found. ext k g (r.extends k g found);
      honest = renamed_Honest s i c.disk f e h l r.honest;
      mapped =
          Mapped-set_key s _ j (record e { folder = pending_name j }) c.entries
            (f, there, renamed_load (partial_name i) (pending_name j) f e l, refl)
            (Mapped-Extends s c.disk _ c.entries ext r.mapped);
    }
