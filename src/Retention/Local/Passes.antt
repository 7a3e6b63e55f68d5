-- ===== src/Retention/Local/Passes.antt =====
-- The verdicts of each pass over local files, and its total.
use camvault.Prelude.{
  ℕ, ◌+◌, ◌-◌, ◌≡◌, inl, inr, List, not, ◌&&◌, ◌||◌, Option, ltb, leb, ◌==◌, arith, Bool-cases,
}
use camvault.Retention.Remote.{Policy}
use camvault.Retention.Local.{
  Media, Counts, Progress, age_pass, size_pass, free_pass, emergency_pass, at_limit, count,
  total_of,
}
use camvault.Retention.Local.Verdicts.{Judged, all_listed, age_files-Judged, shrink-Judged}
use camvault.Retention.Local.Totals.{FreesSize, shrink_total}

abbrev pub no_counts : Counts
no_counts = record { files = 0; bytes = 0 }

module _ (unlinks : Media → Option ℕ) where
  abbrev pub Counted : Progress → Type 0
  Counted x = x.total ≡ 0 + total_of unlinks x.files

  pub age_pass-Judged :
      (p : Policy) (fs : List Media)
      → let x = age_pass unlinks p fs in Judged unlinks p.cutoff fs x.files no_counts x.deleted
  unfolding age_pass
  age_pass-Judged p fs = elim (Bool-cases (p.retention_days == 0)) [
    | inl none_set ↦ rw none_set (all_listed unlinks p.cutoff no_counts fs)
    | inr days ↦ rw days (age_files-Judged unlinks p.cutoff no_counts fs)
  ]

  pub age_pass-Counted : (p : Policy) (fs : List Media) → Counted (age_pass unlinks p fs)
  unfolding age_pass
  age_pass-Counted p fs = omega arith

  module _ (cutoff : ℕ) (p : Policy) (x : Progress) where
    abbrev Next : Progress → Type 0
    Next y = Judged unlinks cutoff x.files y.files x.deleted y.deleted

    pub size_pass-Judged : Next (size_pass unlinks p x)
    unfolding size_pass
    size_pass-Judged = elim (Bool-cases (not (p.max_bytes == 0) && ltb p.max_bytes x.total)) [
      | inr fits ↦ rw fits (all_listed unlinks cutoff x.deleted x.files)
      | inl over ↦ rw over (
          shrink-Judged unlinks (λ total. leb total p.max_bytes) (λ size total. total - size) cutoff
            x.total x.deleted x.total x.files)
    ]

    pub free_pass-Judged : (free : ℕ) → Next (free_pass unlinks p free x)
    unfolding free_pass
    free_pass-Judged free =
        elim (Bool-cases (not (p.min_free_bytes == 0) && ltb free p.min_free_bytes)) [
          | inr fits ↦ rw fits (all_listed unlinks cutoff x.deleted x.files)
          | inl short ↦ rw short (
              shrink-Judged unlinks (λ f. leb p.min_free_bytes f) (λ size f. f + size) cutoff free
                x.deleted x.total x.files)
        ]

    pub emergency_pass-Judged :
        (min_delete : ℕ) (limit : Option ℕ) → Next (emergency_pass unlinks min_delete limit x)
    unfolding emergency_pass
    emergency_pass-Judged min_delete limit = elim (Bool-cases (min_delete - x.deleted.bytes == 0)) [
      | inl enough ↦ rw enough (all_listed unlinks cutoff x.deleted x.files)
      | inr needed ↦ rw needed (
          shrink-Judged unlinks
            (λ c. leb (min_delete - x.deleted.bytes) c.bytes || at_limit unlinks limit c.files)
            (count unlinks) cutoff no_counts x.deleted x.total x.files)
    ]

  module _ (frees : FreesSize unlinks) (p : Policy) (x : Progress) (before : Counted x) where
    pub size_pass-Counted : Counted (size_pass unlinks p x)
    unfolding size_pass
    size_pass-Counted = elim (Bool-cases (not (p.max_bytes == 0) && ltb p.max_bytes x.total)) [
      | inr fits ↦ rw fits before
      | inl over ↦ rw over (
          shrink_total unlinks frees (λ total. leb total p.max_bytes) (λ size total. total - size)
            x.total x.deleted x.total 0 x.files before)
    ]

    pub free_pass-Counted : (free : ℕ) → Counted (free_pass unlinks p free x)
    unfolding free_pass
    free_pass-Counted free =
        elim (Bool-cases (not (p.min_free_bytes == 0) && ltb free p.min_free_bytes)) [
          | inr fits ↦ rw fits before
          | inl short ↦ rw short (
              shrink_total unlinks frees (λ f. leb p.min_free_bytes f) (λ size f. f + size) free
                x.deleted x.total 0 x.files before)
        ]

    pub emergency_pass-Counted :
        (min_delete : ℕ) (limit : Option ℕ) → Counted (emergency_pass unlinks min_delete limit x)
    unfolding emergency_pass
    emergency_pass-Counted min_delete limit =
        elim (Bool-cases (min_delete - x.deleted.bytes == 0)) [
          | inl enough ↦ rw enough before
          | inr needed ↦ rw needed (
              shrink_total unlinks frees
                (λ c. leb (min_delete - x.deleted.bytes) c.bytes || at_limit unlinks limit c.files)
                (count unlinks) no_counts x.deleted x.total 0 x.files before)
        ]
