-- ===== src/Outbox/Lookup.antt =====
-- Which entry a key has after a change of `_entries`.
use camvault.Prelude.{
  ◌≡◌, refl, sym, subst, List, [], ◌∷◌, ◌++◌, none, some, if◌then◌else◌, arith, text_eq, text_eq→eq,
  text_eq_refl, text_eq_apart, Bool-cases, inl, inr,
}
use camvault.Read.Range.{Text}
use camvault.Outbox.Entry.{Entry}
use camvault.Outbox.Persist.{lookup}
use camvault.Outbox.Replay.{remove_key}
use camvault.Outbox.Open.{set_key}

pub lookup-set_key :
    (i j : Text) (e : Entry) (es : List (Text × Entry))
    → lookup j (set_key i e es) ≡ (if text_eq i j then some e else lookup j es)
unfolding lookup set_key
lookup-set_key i j e [] = refl
lookup-set_key i j e ((k, old) ∷ es) = elim (Bool-cases (text_eq k i)) [
  | inl same ↦
      let q : k ≡ i = text_eq→eq k i same in
      subst
        (λ (x : Text).
          lookup j (set_key i e ((x, old) ∷ es))
          ≡ (if text_eq i j then some e else if text_eq x j then some old else lookup j es))
        (sym q) (rw (text_eq_refl i) (ground arith))
  | inr other ↦ rw (other, lookup-set_key i j e es) (ground (arith, text_eq_apart k i j other))
]

pub lookup-remove_key :
    (i j : Text) (es : List (Text × Entry))
    → lookup j (remove_key i es) ≡ (if text_eq i j then none else lookup j es)
unfolding lookup
lookup-remove_key i j [] = ground arith
lookup-remove_key i j ((k, old) ∷ es) = elim (Bool-cases (text_eq k i)) [
  | inl same ↦
      let q : k ≡ i = text_eq→eq k i same in
      rw (same, lookup-remove_key i j es)
        (subst
          (λ (x : Text).
            (if text_eq i j then none else lookup j es)
            ≡ (if text_eq i j then none else if text_eq x j then some old else lookup j es))
          (sym q) (ground arith))
  | inr other ↦ rw (other, lookup-remove_key i j es) (ground (arith, text_eq_apart k i j other))
]

pub lookup-append :
    (i j : Text) (e : Entry) (es : List (Text × Entry))
    → lookup i es ≡ none
    → lookup j (es ++ (i, e) ∷ []) ≡ (if text_eq i j then some e else lookup j es)
unfolding lookup
lookup-append i j e [] h = refl
lookup-append i j e ((k, old) ∷ es) h = elim (Bool-cases (text_eq k i)) [
  | inl same ↦ absurd (ground arith)
  | inr other ↦
      rw (lookup-append i j e es (ground arith)) (ground (arith, text_eq_apart k i j other))
]
