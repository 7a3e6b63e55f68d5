-- ===== src/Retention/Sweep/Deleted.antt =====
-- What the deletion of a list of recordings leaves in the log and in the counts.
use camvault.Prelude.{
  ◌+◌, ◌≡◌, ◌⊎◌, inl, inr, refl, sym, ◌∙◌, subst, String, List, [], ◌∷◌, ◌++◌, Bool, true, str_eq,
  eq_iff, some, if◌then◌else◌, arith, All, Bool-cases,
}
use camvault.Retention.Sweep.{Recording, Deletions, is_deleted, delete_record}

-- A path counts once, with its size.
abbrev pub count_deleted : Deletions → Recording → Deletions
count_deleted d r = if is_deleted r d.paths then d else record {
  paths = (r.camera_id, r.relative_path) ∷ d.paths;
  files = d.files + 1;
  bytes = d.bytes + r.size_bytes;
}

abbrev pub deletions_of : Deletions → List Recording → Deletions
deletions_of d [] = d
deletions_of d (r ∷ rs) = deletions_of (count_deleted d r) rs

pub deletions_of-append :
    (d : Deletions) (xs ys : List Recording)
    → deletions_of d (xs ++ ys) ≡ deletions_of (deletions_of d xs) ys
deletions_of-append d [] ys = refl
deletions_of-append d (x ∷ xs) ys = deletions_of-append (count_deleted d x) xs ys

str_eq_refl : (x : String) → str_eq x x ≡ true
str_eq_refl x = ground (arith, eq_iff x x)

is_deleted-count_deleted :
    (d : Deletions) (r : Recording) → is_deleted r (count_deleted d r).paths ≡ true
unfolding is_deleted
is_deleted-count_deleted d r = elim (Bool-cases (is_deleted r d.paths)) [
  | inl known ↦ rw known known
  | inr new ↦ rw new (rw (str_eq_refl r.camera_id, str_eq_refl r.relative_path))
]

is_deleted-still :
    (d : Deletions) (q r : Recording)
    → is_deleted r d.paths ≡ true
    → is_deleted r (count_deleted d q).paths ≡ true
unfolding is_deleted
is_deleted-still d q r h = elim (Bool-cases (is_deleted q d.paths)) [
  | inl known ↦ rw known h
  | inr new ↦ rw new (ground arith)
]

is_deleted-deletions_of :
    (d : Deletions) (r : Recording) (rs : List Recording)
    → is_deleted r d.paths ≡ true
    → is_deleted r (deletions_of d rs).paths ≡ true
is_deleted-deletions_of d r [] h = h
is_deleted-deletions_of d r (x ∷ rs) h =
    is_deleted-deletions_of (count_deleted d x) r rs (is_deleted-still d x r h)

logged :
    (d : Deletions) (rs : List Recording)
    → All (λ r. is_deleted r (deletions_of d rs).paths ≡ true) rs
logged d [] = tt
logged d (r ∷ rs) = (
  is_deleted-deletions_of (count_deleted d r) r rs (is_deleted-count_deleted d r),
  logged (count_deleted d r) rs,
)

module _ (accepts : Recording → Bool) where
  -- At its turn each recording was in the log, or the server has accepted its deletion.
  abbrev pub Accepted : Deletions → List Recording → Type 0
  Accepted d [] = Unit {0}
  Accepted d (r ∷ rs) =
      ((is_deleted r d.paths ≡ true) ⊎ (accepts r ≡ true)) × Accepted (count_deleted d r) rs

  -- The recordings are all in the log after their deletion; each path that was not in the log before
  -- is added and counted once, after the server has accepted its deletion.
  pub record Deleted (d : Deletions) (gone : List Recording) (after : Deletions) : Type 0 where
    pub accepted : Accepted d gone
    pub in_log : All (λ r. is_deleted r after.paths ≡ true) gone
    pub exact : after ≡ deletions_of d gone

  deleted :
      (d : Deletions) (gone : List Recording) (after : Deletions)
      → Accepted d gone
      → after ≡ deletions_of d gone
      → Deleted d gone after
  deleted d gone after a e = record {
    accepted = a;
    in_log =
        subst (λ (x : Deletions). All (λ r. is_deleted r x.paths ≡ true) gone) (sym e)
          (logged d gone);
    exact = e;
  }

  pub Deleted-none : (d : Deletions) → Deleted d [] d
  Deleted-none d = deleted d [] d tt refl

  delete_record_lem :
      (d : Deletions) (r : Recording) (after : Deletions)
      → delete_record accepts d r ≡ some after
      → ((is_deleted r d.paths ≡ true) ⊎ (accepts r ≡ true)) × (after ≡ count_deleted d r)
  unfolding delete_record
  delete_record_lem d r after e = ground arith

  pub Deleted-more :
      (d d' : Deletions) (r : Recording) (gone : List Recording) (after : Deletions)
      → delete_record accepts d r ≡ some d'
      → Deleted d' gone after
      → Deleted d (r ∷ gone) after
  Deleted-more d d' r gone after e p =
      let (turn, same) = delete_record_lem d r d' e in
      let q = subst (λ x. Deleted x gone after) same p in
      deleted d (r ∷ gone) after (turn, q.accepted) q.exact

  Accepted-append :
      (d : Deletions) (xs ys : List Recording)
      → Accepted d xs
      → Accepted (deletions_of d xs) ys
      → Accepted d (xs ++ ys)
  Accepted-append d [] ys a b = b
  Accepted-append d (x ∷ xs) ys a b = (a.0, Accepted-append (count_deleted d x) xs ys a.1 b)

  pub Deleted-append :
      (d d' after : Deletions) (xs ys : List Recording)
      → Deleted d xs d'
      → Deleted d' ys after
      → Deleted d (xs ++ ys) after
  Deleted-append d d' after xs ys p q =
      let r = subst (λ x. Deleted x ys after) p.exact q in
      deleted d (xs ++ ys) after (Accepted-append d xs ys p.accepted r.accepted)
        (r.exact ∙ sym (deletions_of-append d xs ys))
