-- ===== src/Retention/Remote/Kept.antt =====
-- What a retention run leaves: a suffix of the sorted list that keeps the policy.
use camvault.Prelude.{
  ℕ, ◌≤◌, ◌≡◌, ◌⊎◌, inl, inr, refl, subst, List, ◌++◌, Bool, Option, some, arith,
}
use camvault.Retention.Sweep.{Recording}
use camvault.Retention.Sweep.Deleted.{Deleted}
use camvault.Retention.Sweep.Prefix.{total_size, >>=-eq-some}
use camvault.Retention.Remote.{Policy, Outcome, Passed, no_deletions, outcome_of, retention}
use camvault.Retention.Remote.Suffixes.{
  Sorted, Young, Free, some-injective, Purged, Purged-trans, Purged-Suffix, total_size-Suffix,
  Young-Suffix,
}
use camvault.Retention.Remote.Passes.{
  age_pass_lem, size_pass_lem, free_pass_lem, emergency_pass_lem,
}

-- What a run leaves of the sorted list: all but a prefix, which was deleted, none of it too old, none too much, with the free
-- space that is asked for, each where the policy has that limit; and the size that it reports.
pub record Keeps (accepts : Recording → Bool) (p : Policy) (rs : List Recording) (o : Outcome)
    : Type 0 where
  pub gone : List Recording
  pub prefix : rs ≡ gone ++ o.retained
  pub deleted : Deleted accepts no_deletions gone o.deletions
  pub young : (p.retention_days ≡ 0) ⊎ Young p.cutoff o.retained
  pub small : (p.max_bytes ≡ 0) ⊎ (o.remaining_bytes ≤ p.max_bytes)
  pub free : Free p.min_free_bytes o.free_bytes o.retained
  pub counted : o.remaining_bytes ≡ total_size o.retained

-- On a list sorted by start, a retention run that ends without an exception deletes a prefix, all of
-- it in the log and each path accepted by the server and counted once, and nothing else; what it
-- keeps is young enough, fits the size limit, and leaves the free space asked for or is empty, each
-- where the policy has that limit and the server tells its free space.
pub retention-Keeps :
    (accepts : Recording → Bool) (p : Policy) (free : Option ℕ) (min_delete : ℕ) (limit : Option ℕ)
    (low : ℕ) (rs : List Recording) (o : Outcome)
    → Sorted low rs
    → retention accepts p free min_delete limit rs ≡ some o
    → Keeps accepts p rs o
unfolding retention outcome_of
retention-Keeps accepts p free min_delete limit low rs o s e =
    let (z, ran4, built) = >>=-eq-some _ _ e in
    let (y, ran3, ran4') = >>=-eq-some _ _ ran4 in
    let (x, ran2, ran3') = >>=-eq-some _ _ ran3 in
    let (a, ran1, ran2') = >>=-eq-some _ _ ran2 in
    let start : Passed = record { deletions = no_deletions; kept = rs; free = free } in
    let (s1, young) = age_pass_lem accepts p low start a s ran1 in
    let (s2, small) = size_pass_lem accepts p a x ran2' in
    let (s3, room) = free_pass_lem accepts p x y ran3' in
    let (s4, room') = emergency_pass_lem accepts p.min_free_bytes min_delete limit y z room ran4' in
    let rest : Purged accepts x z = Purged-trans accepts x y z s3 s4 in
    let late : Purged accepts a z = Purged-trans accepts a x z s2 rest in
    let (gone, same, deleted) = Purged-trans accepts start a z s1 late in
    subst (Keeps accepts p rs) (some-injective built) (record {
      gone = gone;
      prefix = same;
      deleted = deleted;
      young = elim young [
        | inl none_set ↦ inl none_set
        | inr old ↦ inr (Young-Suffix p.cutoff a.kept z.kept (Purged-Suffix accepts a z late) old)
      ];
      small = elim small [
        | inl none_set ↦ inl none_set
        | inr le ↦
            inr (omega (arith, total_size-Suffix x.kept z.kept (Purged-Suffix accepts x z rest)))
      ];
      free = room';
      counted = refl;
    })
