-- ===== src/Retention/Local/Shrinks.antt =====
-- What the passes over local files leave: the size limit kept, or only files that cannot be deleted.
use camvault.Prelude.{
  ℕ, ◌-◌, ◌≤◌, ◌<◌, ◌≡◌, ◌⊎◌, inl, inr, refl, sym, subst, List, [], ◌∷◌, Bool, true, false, Option,
  leb, ◌==◌, arith, All, Bool-cases,
}
use camvault.Retention.Local.{Media, Counts, Progress, delete_media, count, shrink}

module _ (unlinks : Media → Option ℕ) where
  -- A file whose deletion frees nothing.
  abbrev pub Stays : Media → Type 0
  Stays f = delete_media unlinks f ≡ 0

  module _ {S : Type 0} (reached : S → Bool) (freed : ℕ → S → S) where
    abbrev Result : Type 0
    Result = S × Progress

    module _ (s : S) (c : Counts) (total : ℕ) (f : Media) (fs : List Media) where
      shrink_reached :
          reached s ≡ true
          → shrink unlinks reached freed s c total (f ∷ fs)
            ≡ (s, record { deleted = c; files = f ∷ fs; total = total })
      unfolding shrink
      shrink_reached enough = rw enough

      abbrev after_stay : Result
      after_stay =
          let r : Result = shrink unlinks reached freed s c total fs in
          (r.0, record { deleted = r.1.deleted; files = f ∷ r.1.files; total = r.1.total })

      shrink_stays :
          reached s ≡ false
          → (delete_media unlinks f == 0) ≡ true
          → shrink unlinks reached freed s c total (f ∷ fs) ≡ after_stay
      unfolding shrink
      shrink_stays more stays = rw (more, stays)

      abbrev after_delete : Result
      after_delete =
          shrink unlinks reached freed (freed (delete_media unlinks f) s)
            (count unlinks (delete_media unlinks f) c) (total - delete_media unlinks f) fs

      shrink_deletes :
          reached s ≡ false
          → (delete_media unlinks f == 0) ≡ false
          → shrink unlinks reached freed s c total (f ∷ fs) ≡ after_delete
      unfolding shrink count
      shrink_deletes more gone = rw (more, gone)

      -- What holds after each of the three holds after the round.
      pub shrink_cases :
          (P : Result → Type 0)
          → (reached s ≡ true → P (s, record { deleted = c; files = f ∷ fs; total = total }))
          → (Stays f → P after_stay)
          → (0 < delete_media unlinks f → P after_delete)
          → P (shrink unlinks reached freed s c total (f ∷ fs))
      shrink_cases P at_once stay gone = elim (Bool-cases (reached s)) [
        | inl enough ↦ subst P (sym (shrink_reached enough)) (at_once enough)
        | inr more ↦ elim (Bool-cases (delete_media unlinks f == 0)) [
          | inl stays ↦ subst P (sym (shrink_stays more stays)) (stay (ground arith))
          | inr deleted ↦ subst P (sym (shrink_deletes more deleted)) (gone (ground arith))
        ]
      ]

    pub shrink_stops :
        (s : S) (c : Counts) (total : ℕ) (fs : List Media)
        → let r = shrink unlinks reached freed s c total fs in
          (reached r.0 ≡ true) ⊎ All Stays r.1.files
    unfolding shrink
    shrink_stops s c total [] = inr tt
    shrink_stops s c total (f ∷ fs) =
        shrink_cases s c total f fs (λ (r : Result). (reached r.0 ≡ true) ⊎ All Stays r.1.files)
          (λ enough. inl enough)
          (λ stays. elim (shrink_stops s c total fs) [
            | inl enough ↦ inl enough
            | inr rest ↦ inr (stays, rest)
          ])
          (λ gone.
            shrink_stops (freed (delete_media unlinks f) s)
              (count unlinks (delete_media unlinks f) c) (total - delete_media unlinks f) fs)

    -- What every file has, every file that is left has.
    pub shrink-All :
        (P : Media → Type 0) (s : S) (c : Counts) (total : ℕ) (fs : List Media)
        → All P fs
        → All P (shrink unlinks reached freed s c total fs).1.files
    unfolding shrink
    shrink-All P s c total [] a = tt
    shrink-All P s c total (f ∷ fs) a =
        shrink_cases s c total f fs (λ (r : Result). All P r.1.files) (λ enough. a)
          (λ stays. (a.0, shrink-All P s c total fs a.1))
          (λ gone.
            shrink-All P (freed (delete_media unlinks f) s)
              (count unlinks (delete_media unlinks f) c) (total - delete_media unlinks f) fs a.1)

    pub shrink_le :
        (s : S) (c : Counts) (total : ℕ) (fs : List Media)
        → (shrink unlinks reached freed s c total fs).1.total ≤ total
    unfolding shrink
    shrink_le s c total [] = omega arith
    shrink_le s c total (f ∷ fs) =
        shrink_cases s c total f fs (λ (r : Result). r.1.total ≤ total) (λ enough. omega arith)
          (λ stays. shrink_le s c total fs)
          (λ gone. omega (
            arith,
            shrink_le (freed (delete_media unlinks f) s) (count unlinks (delete_media unlinks f) c)
                (total - delete_media unlinks f) fs,
          ))

  -- The pass by size counts its own total.
  pub size_state :
      (limit total : ℕ) (c : Counts) (fs : List Media)
      → let r = shrink unlinks (λ t. leb t limit) (λ size t. t - size) total c total fs in
        r.0 ≡ r.1.total
  unfolding shrink
  size_state limit total c [] = refl
  size_state limit total c (f ∷ fs) =
      shrink_cases (λ t. leb t limit) (λ size t. t - size) total c total f fs
        (λ (r : ℕ × Progress). r.0 ≡ r.1.total) (λ enough. refl)
        (λ stays. size_state limit total c fs)
        (λ gone.
          size_state limit (total - delete_media unlinks f)
            (count unlinks (delete_media unlinks f) c) fs)
