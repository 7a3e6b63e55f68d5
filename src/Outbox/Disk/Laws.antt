-- ===== src/Outbox/Disk/Laws.antt =====
-- What is found on the disk after a change of it.
use camvault.Prelude.{
  ◌≡◌, refl, sym, ap, ◌∙◌, subst, [], ◌∷◌, Bool, true, false, ◌||◌, none, some, if◌then◌else◌,
  arith, text_eq_refl, text_eq→eq, Bool-cases, Option-cases, inl, inr,
}
use camvault.Outbox.Disk.{
  Name, name_eq, Folder, Disk, find, put, drop_folder, Act, make_folder, write_media,
  write_metadata, write_manifest, rename, unlink_media, unlink_metadata, unlink_manifest,
  remove_folder, change, move, apply,
}

pub name_eq_refl : (n : Name) → name_eq n n ≡ true
unfolding name_eq
name_eq_refl n = ground (arith, text_eq_refl n.id)

pub name_eq→eq : (m n : Name) → name_eq m n ≡ true → m ≡ n
unfolding name_eq
name_eq→eq m n h = ground (arith, text_eq→eq m.id n.id)

name_eq_join : (k n m : Name) → name_eq k m ≡ true → name_eq n m ≡ true → name_eq k n ≡ true
name_eq_join k n m h h' = subst (λ (x : Name). name_eq k x ≡ true) (sym (name_eq→eq n m h')) h

pub find-put :
    (n m : Name) (f : Folder) (d : Disk)
    → find m (put n f d) ≡ (if name_eq n m then some f else find m d)
unfolding find put
find-put n m f [] = refl
find-put n m f ((k, g) ∷ d) = elim (Bool-cases (name_eq k n)) [
  | inl same ↦
      let e : k ≡ n = name_eq→eq k n same in
      subst
        (λ (x : Name).
          find m (put n f ((x, g) ∷ d)) ≡ (if name_eq n m then some f else find m ((x, g) ∷ d)))
        (sym e) (rw (name_eq_refl n) (ground arith))
  | inr other ↦ rw (other, find-put n m f d) (ground (arith, name_eq_join k n m))
]

pub find-drop_folder :
    (n m : Name) (d : Disk) → find m (drop_folder n d) ≡ (if name_eq n m then none else find m d)
unfolding find drop_folder
find-drop_folder n m [] = ground arith
find-drop_folder n m ((k, g) ∷ d) = elim (Bool-cases (name_eq k n)) [
  | inl same ↦
      let e : k ≡ n = name_eq→eq k n same in
      rw (same, find-drop_folder n m d)
        (subst
          (λ (x : Name).
            (if name_eq n m then none else find m d)
            ≡ (if name_eq n m then none else (if name_eq x m then some g else find m d)))
          (sym e) (ground arith))
  | inr other ↦ rw (other, find-drop_folder n m d) (ground (arith, name_eq_join k n m))
]

-- The names whose folder an act may change.
abbrev pub touches : Act → Name → Bool
touches (make_folder n) m = name_eq n m
touches (write_media n bytes) m = name_eq n m
touches (write_metadata n bytes) m = name_eq n m
touches (write_manifest n manifest) m = name_eq n m
touches (rename n k) m = name_eq n m || name_eq k m
touches (unlink_media n) m = name_eq n m
touches (unlink_metadata n) m = name_eq n m
touches (unlink_manifest n) m = name_eq n m
touches (remove_folder n) m = name_eq n m

pub find-change :
    (n m : Name) (g : Folder → Folder) (d : Disk) (f : Folder)
    → find n d ≡ some f
    → find m (change n g d) ≡ (if name_eq n m then some (g f) else find m d)
unfolding change
find-change n m g d f e = rw (e, change) (find-put n m (g f) d)

change_missing : (n : Name) (g : Folder → Folder) (d : Disk) → find n d ≡ none → change n g d ≡ d
unfolding change
change_missing n g d e = rw (e, change)

find-change_apart :
    (n m : Name) (g : Folder → Folder) (d : Disk)
    → name_eq n m ≡ false
    → find m (change n g d) ≡ find m d
find-change_apart n m g d apart = elim (Option-cases (find n d)) [
  | inl missing ↦ ap (find m) (change_missing n g d missing)
  | inr (f, there) ↦ find-change n m g d f there ∙ rw apart
]

pub find-move :
    (n k m : Name) (d : Disk) (f : Folder)
    → find n d ≡ some f
    → find m (move n k d) ≡ (if name_eq k m then some f else if name_eq n m then none else find m d)
unfolding move
find-move n k m d f e =
    rw (e, move) (find-put k m f (drop_folder n d) ∙ rw (find-drop_folder n m d))

move_missing : (n k : Name) (d : Disk) → find n d ≡ none → move n k d ≡ d
unfolding move
move_missing n k d e = rw (e, move)

find-move_apart :
    (n k m : Name) (d : Disk)
    → (name_eq n m || name_eq k m) ≡ false
    → find m (move n k d) ≡ find m d
find-move_apart n k m d apart = elim (Option-cases (find n d)) [
  | inl missing ↦ ap (find m) (move_missing n k d missing)
  | inr (f, there) ↦ find-move n k m d f there ∙ ground (arith, apart)
]

pub find-apply_apart :
    (a : Act) (m : Name) (d : Disk) → touches a m ≡ false → find m (apply a d) ≡ find m d
unfolding apply
find-apply_apart (make_folder n) m d h = find-put n m _ d ∙ rw h
find-apply_apart (write_media n bytes) m d h = find-change_apart n m _ d h
find-apply_apart (write_metadata n bytes) m d h = find-change_apart n m _ d h
find-apply_apart (write_manifest n manifest) m d h = find-change_apart n m _ d h
find-apply_apart (rename n k) m d h = find-move_apart n k m d h
find-apply_apart (unlink_media n) m d h = find-change_apart n m _ d h
find-apply_apart (unlink_metadata n) m d h = find-change_apart n m _ d h
find-apply_apart (unlink_manifest n) m d h = find-change_apart n m _ d h
find-apply_apart (remove_folder n) m d h = find-drop_folder n m d ∙ rw h
