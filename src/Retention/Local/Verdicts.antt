-- ===== src/Retention/Local/Verdicts.antt =====
-- What a run over local files does with each of them.
use camvault.Prelude.{
  ℕ, ◌+◌, ◌-◌, ◌<◌, ◌≡◌, ◌⊎◌, inl, inr, refl, sym, ap, ap₂, ◌∙◌, subst, List, [], ◌∷◌, Bool, false,
  Option, none, some, ltb, ◌==◌, arith, All, Bool-cases,
}
use camvault.Retention.Local.{Media, Counts, Progress, delete_media, count, age_files, shrink}
use camvault.Retention.Local.Shrinks.{Stays, shrink_cases}

-- A file stays on the list, is deleted, or stays on the disk but not on the list.
pub data Verdict : Type 0 where
  listed : Verdict
  gone : Verdict
  missed : Verdict

abbrev pub media_of : List (Media × Verdict) → List Media
media_of [] = []
media_of ((f, v) ∷ vs) = f ∷ media_of vs

abbrev pub listed_of : List (Media × Verdict) → List Media
listed_of [] = []
listed_of ((f, listed) ∷ vs) = f ∷ listed_of vs
listed_of ((f, gone) ∷ vs) = listed_of vs
listed_of ((f, missed) ∷ vs) = listed_of vs

module _ (unlinks : Media → Option ℕ) where
  abbrev pub gone_files : List (Media × Verdict) → ℕ
  gone_files [] = 0
  gone_files ((f, listed) ∷ vs) = gone_files vs
  gone_files ((f, gone) ∷ vs) = 1 + gone_files vs
  gone_files ((f, missed) ∷ vs) = gone_files vs

  abbrev pub gone_bytes : List (Media × Verdict) → ℕ
  gone_bytes [] = 0
  gone_bytes ((f, listed) ∷ vs) = gone_bytes vs
  gone_bytes ((f, gone) ∷ vs) = delete_media unlinks f + gone_bytes vs
  gone_bytes ((f, missed) ∷ vs) = gone_bytes vs

  -- A deletion has freed something; what is missed has no time that can be read, or it is too old but
  -- its deletion fails.
  abbrev pub Justified : ℕ → Media × Verdict → Type 0
  Justified cutoff (f, listed) = Unit {0}
  Justified cutoff (f, gone) = 0 < delete_media unlinks f
  Justified cutoff (f, missed) =
      (f.modified ≡ none)
      ⊎ ((time : ℕ) × (f.modified ≡ some time) × (time < cutoff) × Stays unlinks f)

  -- The verdicts on the files, of which `kept` stay on the list, with what was deleted since `before`.
  pub record Judged (cutoff : ℕ) (fs kept : List Media) (before after : Counts) : Type 0 where
    pub verdicts : List (Media × Verdict)
    pub all : media_of verdicts ≡ fs
    pub left : listed_of verdicts ≡ kept
    pub justified : All (Justified cutoff) verdicts
    pub files : after.files ≡ before.files + gone_files verdicts
    pub bytes : after.bytes ≡ before.bytes + gone_bytes verdicts

  Judged-listed :
      (cutoff : ℕ) (f : Media) (fs kept : List Media) (c after : Counts)
      → Judged cutoff fs kept c after
      → Judged cutoff (f ∷ fs) (f ∷ kept) c after
  Judged-listed cutoff f fs kept c after j = record {
    verdicts = (f, listed) ∷ j.verdicts;
    all = ap (λ t. f ∷ t) j.all;
    left = ap (λ t. f ∷ t) j.left;
    justified = (tt, j.justified);
    files = j.files;
    bytes = j.bytes;
  }

  Judged-missed :
      (cutoff : ℕ) (f : Media) (fs kept : List Media) (c after : Counts)
      → Justified cutoff (f, missed)
      → Judged cutoff fs kept c after
      → Judged cutoff (f ∷ fs) kept c after
  Judged-missed cutoff f fs kept c after why j = record {
    verdicts = (f, missed) ∷ j.verdicts;
    all = ap (λ t. f ∷ t) j.all;
    left = j.left;
    justified = (why, j.justified);
    files = j.files;
    bytes = j.bytes;
  }

  Judged-gone :
      (cutoff : ℕ) (f : Media) (fs kept : List Media) (c after : Counts)
      → 0 < delete_media unlinks f
      → Judged cutoff fs kept (count unlinks (delete_media unlinks f) c) after
      → Judged cutoff (f ∷ fs) kept c after
  unfolding count
  Judged-gone cutoff f fs kept c after why j =
      let some_bytes : (delete_media unlinks f == 0) ≡ false = ground arith in
      let counted : count unlinks (delete_media unlinks f) c
          ≡ record { files = c.files + 1; bytes = c.bytes + delete_media unlinks f } =
        rw some_bytes in
      record {
        verdicts = (f, gone) ∷ j.verdicts;
        all = ap (λ t. f ∷ t) j.all;
        left = j.left;
        justified = (why, j.justified);
        files = omega (arith, j.files, ap (λ (x : Counts). x.files) counted);
        bytes = omega (arith, j.bytes, ap (λ (x : Counts). x.bytes) counted);
      }

  pub all_listed : (cutoff : ℕ) (c : Counts) (fs : List Media) → Judged cutoff fs fs c c
  all_listed cutoff c [] = record {
    verdicts = [];
    all = refl;
    left = refl;
    justified = tt;
    files = omega arith;
    bytes = omega arith;
  }
  all_listed cutoff c (f ∷ fs) = Judged-listed cutoff f fs fs c c (all_listed cutoff c fs)

  count_zero : (size : ℕ) (c : Counts) → size ≡ 0 → count unlinks size c ≡ c
  unfolding count
  count_zero size c e = rw e

  -- The pass by age.
  age_files-aged :
      (cutoff : ℕ) (c : Counts) (f : Media) (fs : List Media) (m : Option ℕ)
      → f.modified ≡ m
      → ((d : Counts) → let r = age_files unlinks cutoff d fs in Judged cutoff fs r.1 d r.0)
      → let r = age_files unlinks cutoff c (record f { modified = m } ∷ fs) in
        Judged cutoff (record f { modified = m } ∷ fs) r.1 c r.0
  unfolding age_files
  age_files-aged cutoff c f fs none e rest =
      let r = age_files unlinks cutoff c fs in
      Judged-missed cutoff (record f { modified = none }) fs r.1 c r.0 (inl refl) (rest c)
  age_files-aged cutoff c f fs (some time) e rest =
      let g : Media = record f { modified = some time } in
      let size = delete_media unlinks g in
      elim (Bool-cases (ltb time cutoff)) [
        | inl old ↦ rw old (elim (Bool-cases (size == 0)) [
          | inl fails ↦
              let after = age_files unlinks cutoff (count unlinks size c) fs in
              let same : count unlinks size c ≡ c = count_zero size c (ground arith) in
              Judged-missed cutoff g fs after.1 c after.0
                (inr (time, refl, ground arith, ground arith))
                (subst (λ (d : Counts). Judged cutoff fs after.1 d after.0) same
                  (rest (count unlinks size c)))
          | inr works ↦
              let after = age_files unlinks cutoff (count unlinks size c) fs in
              Judged-gone cutoff g fs after.1 c after.0 (ground arith) (rest (count unlinks size c))
        ])
        | inr young ↦ rw young (
            let after = age_files unlinks cutoff c fs in
            Judged-listed cutoff g fs after.1 c after.0 (rest c))
      ]

  pub age_files-Judged :
      (cutoff : ℕ) (c : Counts) (fs : List Media)
      → let r = age_files unlinks cutoff c fs in Judged cutoff fs r.1 c r.0
  unfolding age_files
  age_files-Judged cutoff c [] = all_listed cutoff c []
  age_files-Judged cutoff c (f ∷ fs) =
      age_files-aged cutoff c f fs f.modified refl (λ d. age_files-Judged cutoff d fs)

  -- A pass that shrinks the list.
  pub shrink-Judged :
      {S : Type 0} (reached : S → Bool) (freed : ℕ → S → S) (cutoff : ℕ) (s : S) (c : Counts)
      (total : ℕ) (fs : List Media)
      → let r = (shrink unlinks reached freed s c total fs).1 in
        Judged cutoff fs r.files c r.deleted
  unfolding shrink
  shrink-Judged reached freed cutoff s c total [] = all_listed cutoff c []
  shrink-Judged {S} reached freed cutoff s c total (f ∷ fs) =
      let size = delete_media unlinks f in
      let rest = shrink unlinks reached freed s c total fs in
      let next =
        shrink unlinks reached freed (freed size s) (count unlinks size c) (total - size) fs in
      shrink_cases unlinks reached freed s c total f fs
        (λ (r : S × Progress). Judged cutoff (f ∷ fs) r.1.files c r.1.deleted)
        (λ enough. all_listed cutoff c (f ∷ fs))
        (λ stays.
          Judged-listed cutoff f fs rest.1.files c rest.1.deleted
            (shrink-Judged reached freed cutoff s c total fs))
        (λ works. Judged-gone cutoff f fs next.1.files c next.1.deleted works (
          shrink-Judged reached freed cutoff (freed size s) (count unlinks size c) (total - size)
            fs))

  -- The second verdict on each file that the first leaves on the list.
  abbrev Joined : ℕ → List (Media × Verdict) → List (Media × Verdict) → Type 0
  Joined cutoff vs ws =
      (us : List (Media × Verdict)) × (media_of us ≡ media_of vs)
      × (listed_of us ≡ listed_of ws)
      × All (Justified cutoff) us
      × (gone_files us ≡ gone_files vs + gone_files ws)
      × (gone_bytes us ≡ gone_bytes vs + gone_bytes ws)

  cons_injective : (f g : Media) (fs gs : List Media) → f ∷ fs ≡ g ∷ gs → (f ≡ g) × (fs ≡ gs)
  cons_injective f g fs gs e = (cc, cc)

  join :
      (cutoff : ℕ) (vs ws : List (Media × Verdict))
      → media_of ws ≡ listed_of vs
      → All (Justified cutoff) vs
      → All (Justified cutoff) ws
      → Joined cutoff vs ws
  join cutoff [] [] e j k = ([], refl, refl, tt, omega arith, omega arith)
  join cutoff [] (w ∷ ws) e j k = absurd (ground arith)
  join cutoff ((f, listed) ∷ vs) [] e j k = absurd (ground arith)
  join cutoff ((f, listed) ∷ vs) ((g, listed) ∷ ws) e j k =
      let (same, rest) = cons_injective g f (media_of ws) (listed_of vs) e in
      let (us, all, left, why, files, bytes) = join cutoff vs ws rest j.1 k.1 in
      ((g, listed) ∷ us, ap₂ (◌∷◌) same all, ap (λ t. g ∷ t) left, (k.0, why), files, bytes)
  join cutoff ((f, listed) ∷ vs) ((g, gone) ∷ ws) e j k =
      let (same, rest) = cons_injective g f (media_of ws) (listed_of vs) e in
      let (us, all, left, why, files, bytes) = join cutoff vs ws rest j.1 k.1 in
      (
        (g, gone) ∷ us,
        ap₂ (◌∷◌) same all,
        left,
        (k.0, why),
        omega (arith, files),
        omega (arith, bytes),
      )
  join cutoff ((f, listed) ∷ vs) ((g, missed) ∷ ws) e j k =
      let (same, rest) = cons_injective g f (media_of ws) (listed_of vs) e in
      let (us, all, left, why, files, bytes) = join cutoff vs ws rest j.1 k.1 in
      ((g, missed) ∷ us, ap₂ (◌∷◌) same all, left, (k.0, why), files, bytes)
  join cutoff ((f, gone) ∷ vs) ws e j k =
      let (us, all, left, why, files, bytes) = join cutoff vs ws e j.1 k in
      (
        (f, gone) ∷ us,
        ap (λ t. f ∷ t) all,
        left,
        (j.0, why),
        omega (arith, files),
        omega (arith, bytes),
      )
  join cutoff ((f, missed) ∷ vs) ws e j k =
      let (us, all, left, why, files, bytes) = join cutoff vs ws e j.1 k in
      ((f, missed) ∷ us, ap (λ t. f ∷ t) all, left, (j.0, why), files, bytes)

  pub Judged-trans :
      (cutoff : ℕ) (fs mid kept : List Media) (a b c : Counts)
      → Judged cutoff fs mid a b
      → Judged cutoff mid kept b c
      → Judged cutoff fs kept a c
  Judged-trans cutoff fs mid kept a b c j k =
      let (us, all, left, why, files, bytes) =
        join cutoff j.verdicts k.verdicts (k.all ∙ sym j.left) j.justified k.justified in
      record {
        verdicts = us;
        all = all ∙ j.all;
        left = left ∙ k.left;
        justified = why;
        files = omega (arith, files, j.files, k.files);
        bytes = omega (arith, bytes, j.bytes, k.bytes);
      }
