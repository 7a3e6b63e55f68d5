-- ===== src/Outbox/Open/Complete.antt =====
-- The scan reads every entry.
use camvault.Prelude.{
  ◌≡◌, sym, ap, ◌∙◌, subst, List, [], ◌∷◌, Bool, true, false, ◌||◌, Option, none, some, arith,
  text_eq, text_eq_refl, Bool-cases, Option-cases, inl, inr,
}
use camvault.Read.Range.{Text}
use camvault.Outbox.Disk.{Name, name_eq, Folder, Disk, find}
use camvault.Outbox.Disk.Laws.{name_eq→eq}
use camvault.Outbox.Entry.{Entry, loaded, load_entry}
use camvault.Outbox.Persist.{Setup, Memory, pending_name, lookup}
use camvault.Outbox.Persist.Effects.{Extends, Honest}
use camvault.Outbox.Lookup.{lookup-set_key}
use camvault.Outbox.Open.{
  Scan, retain, add_entry, scan_one, scan_all, set_key, listing, start_scan, memory_of, open_outbox,
}
use camvault.Outbox.Open.Scans.{
  Scans, stopping, cleaning, retaining, adding, renaming, scan_one-Scans, scan_one_entry,
}
use camvault.Outbox.Open.Recovered.{Recovered, RecoveredIf, Scans-Recovered, Mapped, Mapped-lookup}

abbrev pub Known : Text → List (Text × Entry) → Type 0
Known i es = (e : Entry) × (lookup i es ≡ some e)

abbrev KnownIf : Text → Option Scan → Type 0
KnownIf i none = Unit {0}
KnownIf i (some c) = Known i c.entries

Known-set :
    (i j : Text) (e : Entry) (es : List (Text × Entry)) → Known i es → Known i (set_key j e es)
Known-set i j e es (old, h) = elim (Bool-cases (text_eq j i)) [
  | inl same ↦ (e, lookup-set_key j i e es ∙ rw same)
  | inr other ↦ (old, lookup-set_key j i e es ∙ (rw other h))
]

Known-new : (i : Text) (e : Entry) (es : List (Text × Entry)) → Known i (set_key i e es)
Known-new i e es = (e, lookup-set_key i i e es ∙ rw (text_eq_refl i))

Scans-Known :
    (s : Setup) (i : Text) (c : Scan) (o : Option Scan)
    → Known i c.entries
    → Scans s c o
    → KnownIf i o
unfolding retain add_entry
Scans-Known s i c none k stopping = tt
Scans-Known s i c (some after) k (cleaning j) = k
Scans-Known s i c (some after) k (retaining f) = k
Scans-Known s i c (some after) k (adding f e h l) = Known-set i _ _ c.entries k
Scans-Known s i c (some after) k (renaming j f e h l free) = Known-set i _ _ c.entries k

scan_one-Known :
    (s : Setup) (i : Text) (c after : Scan) (n : Name)
    → scan_one s n c ≡ some after
    → Known i c.entries
    → Known i after.entries
scan_one-Known s i c after n h k =
    subst (KnownIf i) h (Scans-Known s i c (scan_one s n c) k (scan_one-Scans s c n))

scan_one-Recovered :
    (s : Setup) (before : Disk) (c after : Scan) (n : Name)
    → scan_one s n c ≡ some after
    → Recovered s before c
    → Recovered s before after
scan_one-Recovered s before c after n h r =
    subst (RecoveredIf s before) h
      (Scans-Recovered s before c (scan_one s n c) r (scan_one-Scans s c n))

-- A scan of a list is one of its first directory, and one of the others.
scan_all_cons :
    (s : Setup) (n : Name) (ns : List Name) (c last : Scan)
    → scan_all s (n ∷ ns) c ≡ some last
    → (after : Scan) × (scan_one s n c ≡ some after) × (scan_all s ns after ≡ some last)
unfolding scan_all
scan_all_cons s n ns c last h = elim (Option-cases (scan_one s n c)) [
  | inl stop ↦ absurd (let r : none ≡ some last = rw (stop, scan_all) at h in ground arith)
  | inr (after, one) ↦ (after, one, rw (one, scan_all) at h)
]

same_scan : (s : Setup) (c last : Scan) → scan_all s [] c ≡ some last → c ≡ last
unfolding scan_all
same_scan s c last h = ground arith

pub scan_all-Recovered :
    (s : Setup) (before : Disk) (ns : List Name) (c last : Scan)
    → scan_all s ns c ≡ some last
    → Recovered s before c
    → Recovered s before last
scan_all-Recovered s before [] c last h r = subst (Recovered s before) (same_scan s c last h) r
scan_all-Recovered s before (n ∷ ns) c last h r =
    let (after, one, rest) = scan_all_cons s n ns c last h in
    scan_all-Recovered s before ns after last rest (scan_one-Recovered s before c after n one r)

scan_all-Known :
    (s : Setup) (i : Text) (ns : List Name) (c last : Scan)
    → scan_all s ns c ≡ some last
    → Known i c.entries
    → Known i last.entries
scan_all-Known s i [] c last h k = subst (λ (x : Scan). Known i x.entries) (same_scan s c last h) k
scan_all-Known s i (n ∷ ns) c last h k =
    let (after, one, rest) = scan_all_cons s n ns c last h in
    scan_all-Known s i ns after last rest (scan_one-Known s i c after n one k)

abbrev listed : Name → List Name → Bool
listed n [] = false
listed n (m ∷ ms) = name_eq m n || listed n ms

-- Every directory on the disk is in the listing.
find-listing : (n : Name) (d : Disk) (f : Folder) → find n d ≡ some f → listed n (listing d) ≡ true
unfolding find
find-listing n [] f h = absurd (ground arith)
find-listing n ((m, g) ∷ d) f h = ground (arith, find-listing n d f)

-- A listed directory of an entry that loads is added.
scan_entry :
    (s : Setup) (before : Disk) (i : Text) (f : Folder) (e : Entry) (ns : List Name) (c last : Scan)
    → find (pending_name i) before ≡ some f
    → load_entry (pending_name i) f ≡ loaded e
    → listed (pending_name i) ns ≡ true
    → scan_all s ns c ≡ some last
    → Recovered s before c
    → Known i last.entries
unfolding add_entry
scan_entry s before i f e [] c last there loads listed h r = absurd (ground arith)
scan_entry s before i f e (n ∷ ns) c last there loads listed h r =
    let (after, one, rest) = scan_all_cons s n ns c last h in
    elim (Bool-cases (name_eq n (pending_name i))) [
      | inl here ↦
          let now = r.extends i f there in
          let id = r.honest i f e now loads in
          let added = scan_one_entry s c i f e now loads id in
          let q : n ≡ pending_name i = name_eq→eq n (pending_name i) here in
          let known : KnownIf i (scan_one s n c) =
            subst (λ (m : Name). KnownIf i (scan_one s m c)) (sym q)
              (subst (KnownIf i) (sym added) (
                subst (λ (j : Text). Known i (set_key j e c.entries)) (sym id)
                  (Known-new i e c.entries))) in
          scan_all-Known s i ns after last rest (subst (KnownIf i) one known)
      | inr away ↦
          scan_entry s before i f e ns after last there loads (ground (arith, listed, away)) rest
            (scan_one-Recovered s before c after n one r)
    ]

pub start_Recovered : (s : Setup) (d : Disk) → Honest s d → Recovered s d (start_scan d)
start_Recovered s d honest = record { extends = λ i f h. h; honest = honest; mapped = tt }

first {ℓ κ} : {A : Type ℓ} {B : Type κ} → A → Option (A × B) → A
first a none = a
first a (some p) = p.0

second {ℓ κ} : {A : Type ℓ} {B : Type κ} → B → Option (A × B) → B
second b none = b
second b (some p) = p.1

opened :
    (s : Setup) (d d' : Disk) (m : Memory)
    → open_outbox s d ≡ some (d', m)
    → (c : Scan) × (scan_all s (listing d) (start_scan d) ≡ some c)
      × (c.disk ≡ d')
      × (memory_of c ≡ m)
unfolding open_outbox first second
opened s d d' m h = elim (Option-cases (scan_all s (listing d) (start_scan d))) [
  | inl stop ↦ absurd (let r : none ≡ some (d', m) = rw (stop, open_outbox) at h in ground arith)
  | inr (c, scanned) ↦
      let r : some (c.disk, memory_of c) ≡ some (d', m) = rw (scanned, open_outbox) at h in
      let disk : c.disk ≡ d' = ap (λ (o : Option (Disk × Memory)). (first d' o)) r in
      let memory : memory_of c ≡ m = ap (λ (o : Option (Disk × Memory)). (second m o)) r in
      (c, scanned, disk, memory)
]

-- Every directory of an entry that loads is read, as what it loads.
abbrev pub ReadAll : Setup → Disk → List (Text × Entry) → Type 0
ReadAll s d es =
    (i : Text) (f : Folder) (e : Entry)
    → find (pending_name i) d ≡ some f
    → load_entry (pending_name i) f ≡ loaded e
    → lookup i es ≡ some e

-- What is on the disk and in memory after a start.
pub record Reopened (s : Setup) (before after : Disk) (es : List (Text × Entry)) : Type 0 where
  pub extends : Extends before after
  pub honest : Honest s after
  pub mapped : Mapped s after es
  pub read_all : ReadAll s before es

-- Where what loads from an entry's directory has the identifier it is named for, a start that ends well
-- loses and changes no entry's directory, keeps that so, reads every entry's directory that loads as
-- the entry it loads, and puts into memory only what directories load.
pub open_outbox-Reopened :
    (s : Setup) (d d' : Disk) (m : Memory)
    → Honest s d
    → open_outbox s d ≡ some (d', m)
    → Reopened s d d' m.entries
unfolding memory_of
open_outbox-Reopened s d d' m honest h =
    let (c, scanned, disk, memory) = opened s d d' m h in
    let r =
      scan_all-Recovered s d (listing d) (start_scan d) c scanned (start_Recovered s d honest) in
    let entries : c.entries ≡ m.entries = ap (λ (x : Memory). x.entries) memory in
    let all : ReadAll s d c.entries = λ i f e there loads.
      let (e', known) =
        scan_entry s d i f e (listing d) (start_scan d) c there loads
          (find-listing (pending_name i) d f there) scanned (start_Recovered s d honest) in
      let (g, now, loads', id) = Mapped-lookup s c.disk c.entries i e' r.mapped known in
      let same : g ≡ f = let q : some g ≡ some f = sym now ∙ r.extends i f there in ground arith in
      let one : e' ≡ e =
        let q : loaded e' ≡ loaded e = sym loads' ∙ ap (load_entry (pending_name i)) same ∙ loads in
        ground arith in
      known ∙ ap (λ (x : Entry). some x) one in
    record {
      extends = subst (Extends d) disk r.extends;
      honest = subst (Honest s) disk r.honest;
      mapped =
          subst (Mapped s d') entries (subst (λ (x : Disk). Mapped s x c.entries) disk r.mapped);
      read_all = subst (ReadAll s d) entries all;
    }
