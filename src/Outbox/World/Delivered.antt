-- ===== src/Outbox/World/Delivered.antt =====
-- The invariant after an upload.
use camvault.Prelude.{
  ℕ, suc, ◌≡◌, sym, ap, ◌∙◌, subst, List, [], ◌∷◌, false, none, some, if◌then◌else◌, arith, All,
  text_eq, text_eq→eq, text_eq_refl, Bool-cases, inl, inr,
}
use camvault.Read.Range.{Text}
use camvault.Outbox.Disk.{Name, name_eq, Folder, Disk, find}
use camvault.Outbox.Entry.{Entry, loaded, load_entry, identifier}
use camvault.Outbox.Entry.Laws.{load_entry_folder}
use camvault.Outbox.Persist.{Setup, Memory, pending_name, committed_name, lookup, interrupt}
use camvault.Outbox.Persist.Laws.{find-interrupt-Apart, find_renamed}
use camvault.Outbox.Persist.Effects.{Honest}
use camvault.Outbox.Lookup.{lookup-remove_key}
use camvault.Outbox.Replay.{choose, cleanup, removal, remove_key, forget}
use camvault.Outbox.Replay.Order.{choose_All}
use camvault.Outbox.Open.Recovered.{Placed, Mapped, cleanup-Apart}
use camvault.Outbox.World.{Recording, recording, recording_id, World}
use camvault.Outbox.World.Sound.{Sound, Kept, Honoured, All-map, Honoured-map, In}

-- The other entries' directories are as they were.
abbrev pub Others : Text → Disk → Disk → Type 0
Others i d d' =
    (j : Text) → text_eq i j ≡ false → find (pending_name j) d' ≡ find (pending_name j) d

-- The chosen entry is placed where its directory is.
pub chosen :
    (s : Setup) (d : Disk) (m : Memory) (e : Entry)
    → choose m ≡ some e
    → Mapped s d m.entries
    → Placed s d (identifier s.name_hash e, e)
chosen s d m e h mapped =
    choose_All (λ x. Placed s d (identifier s.name_hash x, x)) m e h
      (All-map m.entries
        (λ x p.
          let (f, there, loads, id) = p in subst (λ (i : Text). Placed s d (i, x.1)) (sym id) p)
        mapped)

pub Placed-folder :
    (s : Setup) (d : Disk) (i : Text) (e : Entry) → Placed s d (i, e) → e.folder ≡ pending_name i
Placed-folder s d i e p =
    let (f, there, loads, id) = p in load_entry_folder (pending_name i) f e loads

-- A recording that was kept is with the remote if it is the delivered one, and else still kept.
Kept-deliver :
    (s : Setup) (w after : World) (m : Memory) (e : Entry) (f : Folder) (r : Recording)
    → find (pending_name (identifier s.name_hash e)) w.disk ≡ some f
    → load_entry (pending_name (identifier s.name_hash e)) f ≡ loaded e
    → w.memory ≡ some m
    → Others (identifier s.name_hash e) w.disk after.disk
    → ((m' : Memory)
        → after.memory ≡ some m'
        → (j : Text) (x : Entry) → text_eq (identifier s.name_hash e) j ≡ false
        → lookup j m.entries ≡ some x
        → lookup j m'.entries ≡ some x)
    → after.remote ≡ recording e.manifest f ∷ w.remote
    → Kept s w r
    → Kept s after r
Kept-deliver s w after m e f r there loads is others remembers remote (inl delivered) =
    inl (subst (In r) (sym remote) (inr delivered))
Kept-deliver s w after m e f r there loads is others remembers remote (inr held) =
    let i = identifier s.name_hash e in
    let (g, x, there', loads', same, known) = held in
    elim (Bool-cases (text_eq i (recording_id s r))) [
      | inl here ↦
          let q : i ≡ recording_id s r = text_eq→eq i _ here in
          let folders : f ≡ g =
            let o : some f ≡ some g =
              sym there ∙ ap (λ (y : Text). find (pending_name y) w.disk) q ∙ there' in
            ground arith in
          let entries : e ≡ x =
            let o : loaded e ≡ loaded x =
              sym loads
              ∙ ap (λ (y : Text). load_entry (pending_name y) f) q
              ∙ ap (load_entry (pending_name (recording_id s r))) folders
              ∙ loads' in
            ground arith in
          let new : recording e.manifest f ≡ r =
            ap (λ (y : Entry). recording y.manifest f) entries
            ∙ ap (recording x.manifest) folders
            ∙ same in
          inl (subst (In r) (sym remote) (inl new))
      | inr other ↦ inr (
        g,
        x,
        others _ other ∙ there',
        loads',
        same,
        λ m' now. remembers m' now _ x other (known m is),
      )
    ]

pub deliver-Sound :
    (s : Setup) (w after : World) (m : Memory) (e : Entry) (f : Folder)
    → Sound s w
    → w.memory ≡ some m
    → choose m ≡ some e
    → find e.folder w.disk ≡ some f
    → Others (identifier s.name_hash e) w.disk after.disk
    → Honest s after.disk
    → ((m' : Memory) → after.memory ≡ some m' → Mapped s after.disk m'.entries)
    → ((m' : Memory)
        → after.memory ≡ some m'
        → (j : Text) (x : Entry) → text_eq (identifier s.name_hash e) j ≡ false
        → lookup j m.entries ≡ some x
        → lookup j m'.entries ≡ some x)
    → after.remote ≡ recording e.manifest f ∷ w.remote
    → w.acknowledged ≡ after.acknowledged
    → Sound s after
deliver-Sound s w after m e f sound is choice there others honest mapped remembers remote
      acknowledged =
    let i = identifier s.name_hash e in
    let (g, there', loads, id) = chosen s w.disk m e choice (sound.mapped m is) in
    let place = Placed-folder s w.disk i e (g, there', loads, id) in
    let here : find (pending_name i) w.disk ≡ some f =
      sym (ap (λ (n : Name). find n w.disk) place) ∙ there in
    let folders : g ≡ f = let o : some g ≡ some f = sym there' ∙ here in ground arith in
    let loads' : load_entry (pending_name i) f ≡ loaded e =
      subst (λ (y : Folder). load_entry (pending_name i) y ≡ loaded e) folders loads in
    record {
      honest = honest;
      mapped = mapped;
      kept = subst (All (Honoured s after)) acknowledged (
          Honoured-map s w after w.acknowledged
            (λ r k. Kept-deliver s w after m e f r here loads' is others remembers remote k)
            sound.kept);
    }

-- What the removal leaves of the entries' directories, after its first act.
removed_find :
    (s : Setup) (d : Disk) (e : Entry) (f : Folder) (k : ℕ) (j : Text)
    → e.folder ≡ pending_name (identifier s.name_hash e)
    → find e.folder d ≡ some f
    → find (pending_name j) (interrupt (suc k) none (removal s e) d)
      ≡ (if text_eq (identifier s.name_hash e) j then none else find (pending_name j) d)
unfolding removal interrupt name_eq
removed_find s d e f k j place there =
    let i = identifier s.name_hash e in
    find-interrupt-Apart k none (cleanup (committed_name i)) (pending_name j) _ (cleanup-Apart i j)
    ∙ find_renamed e.folder (committed_name i) (pending_name j) d f there
    ∙ ap (λ (n : Name). if name_eq n (pending_name j) then none else find (pending_name j) d) place

abbrev pub Removed : Text → Disk → Disk → Type 0
Removed i d d' =
    (j : Text) → find (pending_name j) d' ≡ (if text_eq i j then none else find (pending_name j) d)

pub Removed-Others : (i : Text) (d d' : Disk) → Removed i d d' → Others i d d'
Removed-Others i d d' removed j apart = removed j ∙ rw apart

pub Removed-Honest :
    (s : Setup) (i : Text) (d d' : Disk) → Removed i d d' → Honest s d → Honest s d'
Removed-Honest s i d d' removed honest j f e there loads =
    let there' : (if text_eq i j then none else find (pending_name j) d) ≡ some f =
      sym (removed j) ∙ there in
    elim (Bool-cases (text_eq i j)) [
      | inl gone ↦ absurd (let q : none ≡ some f = rw gone at there' in ground arith)
      | inr other ↦ honest j f e (rw other at there') loads
    ]

pub Removed-Mapped :
    (s : Setup) (i : Text) (d d' : Disk) (es : List (Text × Entry))
    → Removed i d d'
    → Mapped s d es
    → Mapped s d' (remove_key i es)
Removed-Mapped s i d d' [] removed mapped = tt
Removed-Mapped s i d d' ((k, e) ∷ es) removed mapped =
    let rest = Removed-Mapped s i d d' es removed mapped.1 in
    elim (Bool-cases (text_eq k i)) [
      | inl gone ↦ rw gone rest
      | inr other ↦
          let (f, there, loads, id) = mapped.0 in
          let apart : text_eq i k ≡ false = elim (Bool-cases (text_eq i k)) [
            | inl same ↦ absurd (ground (arith, text_eq→eq i k same, text_eq_refl i))
            | inr isnt ↦ isnt
          ] in
          rw other ((f, removed k ∙ (rw (apart, there)), loads, id), rest)
    ]

pub removal-Removed :
    (s : Setup) (d : Disk) (m : Memory) (e : Entry) (f : Folder) (k : ℕ)
    → choose m ≡ some e
    → Mapped s d m.entries
    → find e.folder d ≡ some f
    → Removed (identifier s.name_hash e) d (interrupt (suc k) none (removal s e) d)
removal-Removed s d m e f k choice mapped there j =
    removed_find s d e f k j (Placed-folder s d _ e (chosen s d m e choice mapped)) there

pub forget-lookup :
    (s : Setup) (e : Entry) (m : Memory) (j : Text) (x : Entry)
    → text_eq (identifier s.name_hash e) j ≡ false
    → lookup j m.entries ≡ some x
    → lookup j (forget s e m).entries ≡ some x
unfolding forget
forget-lookup s e m j x apart h = lookup-remove_key _ j m.entries ∙ rw (apart, h)
