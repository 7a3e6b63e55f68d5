-- ===== src/Retention/Sweep/Prefix.antt =====
-- A sweep deletes a prefix of its list, and stops as soon as it wants no more.
use camvault.Prelude.{
  ℕ, ◌+◌, ◌≤◌, ◌≡◌, ◌⊎◌, inl, inr, refl, sym, ap, ◌∙◌, subst, List, [], ◌∷◌, ◌++◌, Bool, true,
  false, Option, none, some, if◌then◌else◌, arith, length, Bool-cases,
}
use camvault.Retention.Sweep.Deleted.{Deleted, Deleted-none, Deleted-more}
use camvault.Retention.Sweep.{keep, Recording, Deletions, Swept, sweep, delete_record, ◌>>=◌}

abbrev pub total_size : List Recording → ℕ
total_size [] = 0
total_size (r ∷ rs) = r.size_bytes + total_size rs

pub total_size-append :
    (xs ys : List Recording) → total_size (xs ++ ys) ≡ total_size xs + total_size ys
total_size-append [] ys = omega arith
total_size-append (x ∷ xs) ys = omega (arith, total_size-append xs ys)

pub >>=-eq-some {ℓ κ} :
    {A : Type ℓ} {B : Type κ} (m : Option A) (f : A → Option B) {b : B}
    → (m >>= f) ≡ some b
    → (a : A) × (m ≡ some a) × (f a ≡ some b)
>>=-eq-some none f h = cc
>>=-eq-some (some a) f h = (a, refl, h)

module _ {S : Type 0} (accepts : Recording → Bool) (wants : S → Bool)
    (step : S → Recording → S) where
  -- The state after the deletions of a list.
  abbrev pub steps : S → List Recording → S
  steps s [] = s
  steps s (r ∷ rs) = steps (step s r) rs

  -- Each deletion was wanted at its turn.
  abbrev pub Wanted : S → List Recording → Type 0
  Wanted s [] = Unit {0}
  Wanted s (r ∷ rs) = (wants s ≡ true) × Wanted (step s r) rs

  -- What is left is the list without the prefix that was deleted, and the log and the counts are those
  -- of exactly that prefix.
  pub record Splits (s : S) (d : Deletions) (rs : List Recording) (w : Swept S) : Type 0 where
    pub gone : List Recording
    pub prefix : rs ≡ gone ++ w.kept
    pub reached : w.state ≡ steps s gone
    pub wanted : Wanted s gone
    pub deleted : Deleted accepts d gone w.deletions
    pub stopped : (w.kept ≡ []) ⊎ (wants w.state ≡ false)
    pub at_most : w.deletions.bytes ≤ d.bytes + total_size gone
    pub files : w.deletions.files ≤ d.files + length gone

  delete_record_le :
      (d : Deletions) (r : Recording) (d' : Deletions)
      → delete_record accepts d r ≡ some d'
      → (d'.bytes ≤ d.bytes + r.size_bytes) × (d'.files ≤ d.files + 1)
  unfolding delete_record
  delete_record_le d r d' e = ground arith

  -- A loop that wants nothing keeps every recording.
  pub sweep_idle :
      (s : S) (d : Deletions) (rs : List Recording)
      → wants s ≡ false
      → sweep accepts wants step s d rs ≡ some (record { state = s; deletions = d; kept = rs })
  unfolding sweep
  sweep_idle s d [] idle = refl
  sweep_idle s d (r ∷ rs) idle = rw (idle, sweep_idle s d rs idle)

  Splits-none :
      (s : S) (d : Deletions) (rs : List Recording)
      → (rs ≡ []) ⊎ (wants s ≡ false)
      → Splits s d rs (record { state = s; deletions = d; kept = rs })
  Splits-none s d rs stopped = record {
    gone = [];
    prefix = refl;
    reached = refl;
    wanted = tt;
    deleted = Deleted-none accepts d;
    stopped = stopped;
    at_most = omega arith;
    files = omega arith;
  }

  Splits-more :
      {s : S} {d d' : Deletions} {r : Recording} {rs : List Recording} {w : Swept S}
      → wants s ≡ true
      → delete_record accepts d r ≡ some d'
      → Splits (step s r) d' rs w
      → Splits s d (r ∷ rs) w
  Splits-more {d} {d'} {r} {w} more deleted p = record {
    gone = r ∷ p.gone;
    prefix = ap (λ xs. r ∷ xs) p.prefix;
    reached = p.reached;
    wanted = (more, p.wanted);
    deleted = Deleted-more accepts d d' r p.gone w.deletions deleted p.deleted;
    stopped = p.stopped;
    at_most = omega (arith, p.at_most, (delete_record_le d r d' deleted).0);
    files = omega (arith, p.files, (delete_record_le d r d' deleted).1);
  }

  of_some :
      {s : S} {d : Deletions} {rs : List Recording} {v w : Swept S}
      → some v ≡ some w
      → Splits s d rs v
      → Splits s d rs w
  of_some {s} {d} {rs} {v} {w} e p = let q : v ≡ w = cc in subst (λ u. Splits s d rs u) q p

  -- A loop that ends without an exception has deleted a prefix of its list: each of its recordings is
  -- in the log, a path that was not there before was accepted by the server and counted once with its
  -- size, and no other was; each deletion was wanted when its turn came; and what is kept is the rest
  -- of the list, which is empty or no longer wanted.
  pub sweep-Splits :
      (s : S) (d : Deletions) (rs : List Recording) (w : Swept S)
      → sweep accepts wants step s d rs ≡ some w
      → Splits s d rs w
  unfolding sweep
  sweep-Splits s d [] w e = of_some e (Splits-none s d [] (inl refl))
  sweep-Splits s d (r ∷ rs) w e = elim (Bool-cases (wants s)) [
    | inl more ↦
        (let (d', deleted, rest) =
            >>=-eq-some (delete_record accepts d r)
              (λ d'. sweep accepts wants step (step s r) d' rs)
              (sym (
                  ap
                    (λ b.
                      if b
                      then delete_record accepts d r
                        >>= (λ d'. sweep accepts wants step (step s r) d' rs)
                      else (sweep accepts wants step s d rs >>= keep accepts wants step r))
                    more)
                ∙ e) in
          Splits-more more deleted (sweep-Splits (step s r) d' rs w rest))
    | inr enough ↦
        of_some (sym (sweep_idle s d (r ∷ rs) enough) ∙ e) (Splits-none s d (r ∷ rs) (inr enough))
  ]
