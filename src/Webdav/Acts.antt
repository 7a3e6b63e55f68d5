-- ===== src/Webdav/Acts.antt =====
-- What a coroutine of storage.py does to the state that it shares: it returns or it raises. A
-- `StorageBackendError` has a status code or none, a `ValueError` is `invalid`, and `source` is what
-- the caller's chunks raise.
use camvault.Prelude.{ℕ, ◌≡◌, refl, subst, Bool, true, false, Option, if◌then◌else◌}

pub data Failure : Type 0 where
  backend : Option ℕ → Failure
  invalid : Failure
  source : Failure

pub data Outcome (A : Type 0) : Type 0 where
  ok : A → Outcome A
  err : Failure → Outcome A

abbrev pub Act : Type 0 → Type 0 → Type 0
Act S A = S → Outcome A × S

-- What follows a value that is returned; what is raised goes on.
abbrev pub after : {S A B : Type 0} → Outcome A × S → (A → Act S B) → Outcome B × S
after (ok a, s) f = f a s
after (err e, s) f = (err e, s)

infixl 5 ◌>>=◌ ◌>>◌
unfoldable pub ◌>>=◌ : {S A B : Type 0} → Act S A → (A → Act S B) → Act S B
◌>>=◌ m f s = after (m s) f

abbrev pub ◌>>◌ : {S B : Type 0} → Act S (Unit {0}) → Act S B → Act S B
m >> k = m >>= λ _. k

abbrev pub return : {S A : Type 0} → A → Act S A
return a s = (ok a, s)

abbrev pub raise : {S A : Type 0} → Failure → Act S A
raise e s = (err e, s)

abbrev settle : {S A : Type 0} → Outcome A × S → Outcome (Outcome A) × S
settle (o, s) = (ok o, s)

-- The outcome as a value, for an `except` clause.
unfoldable pub attempt : {S A : Type 0} → Act S A → Act S (Outcome A)
attempt m s = settle (m s)

abbrev raised : {S A : Type 0} → Act S (Unit {0}) → Outcome A → Act S A
raised clean (ok a) s = (ok a, s)
raised clean (err e) s = after (clean s) (λ _. raise e)

-- `except Exception:` with a body that cleans up and raises the exception again.
unfoldable pub rescue : {S A : Type 0} → Act S A → Act S (Unit {0}) → Act S A
rescue m clean s = after (settle (m s)) (raised clean)

-- What holds after an action: `Q` where it returns, `E` where it raises.
abbrev pub Ends : {S A : Type 0} → (A → S → Type 0) → (S → Type 0) → Outcome A × S → Type 0
Ends Q E (ok a, s) = Q a s
Ends Q E (err e, s) = E s

pub record Post {S A : Type 0} (P : S → Type 0) (m : Act S A) (Q : A → S → Type 0) (E : S → Type 0)
    : Type 0 where
  pub ends : (s : S) → P s → Ends Q E (m s)

-- An action that keeps `P`, whatever its outcome.
abbrev pub Keeps : {S A : Type 0} → (S → Type 0) → Act S A → Type 0
Keeps P m = Post P m (λ _. P) P

module _ {S A : Type 0} where
  after-Ends :
      {B : Type 0} (E : S → Type 0) (R : A → S → Type 0) (Q : B → S → Type 0) (r : Outcome A × S)
      (f : A → Act S B)
      → Ends R E r
      → ((a : A) → Post (R a) (f a) Q E)
      → Ends Q E (after r f)
  after-Ends E R Q (ok a, s) f h k = (k a).ends s h
  after-Ends E R Q (err e, s) f h k = h

  pub bind-Post :
      {B : Type 0} {P E : S → Type 0} {R : A → S → Type 0} {Q : B → S → Type 0} {m : Act S A}
      {f : A → Act S B}
      → Post P m R E
      → ((a : A) → Post (R a) (f a) Q E)
      → Post P (m >>= f) Q E
  unfolding ◌>>=◌
  bind-Post {B} {P} {E} {R} {Q} {m} {f} h k = record {
    ends = λ s p. after-Ends _ R Q (m s) f (h.ends s p) k;
  }

  raise-Ends :
      (E : S → Type 0) (Q : A → S → Type 0) (r : Outcome (Unit {0}) × S) (e : Failure)
      → Ends (λ _. E) E r
      → Ends Q E (after r (λ _. raise e))
  raise-Ends E Q (ok a, s) e h = h
  raise-Ends E Q (err f, s) e h = h

  rescue-Ends :
      (E : S → Type 0) (Q : A → S → Type 0) (r : Outcome A × S) (clean : Act S (Unit {0}))
      → Ends Q E r
      → Keeps E clean
      → Ends Q E (after (settle r) (raised clean))
  rescue-Ends E Q (ok a, s) clean h k = h
  rescue-Ends E Q (err e, s) clean h k = raise-Ends E Q (clean s) e (k.ends s h)

  pub rescue-Post :
      {P E : S → Type 0} {Q : A → S → Type 0} {m : Act S A} {clean : Act S (Unit {0})}
      → Post P m Q E
      → Keeps E clean
      → Post P (rescue m clean) Q E
  unfolding rescue
  rescue-Post {P} {E} {Q} {m} {clean} h k = record {
    ends = λ s p. rescue-Ends _ Q (m s) clean (h.ends s p) k;
  }

  pub if-Ends :
      (E : S → Type 0) (Q : A → S → Type 0) (t : Bool) (r r' : Outcome A × S)
      → (t ≡ true → Ends Q E r)
      → (t ≡ false → Ends Q E r')
      → Ends Q E (if t then r else r')
  if-Ends E Q true r r' h h' = h refl
  if-Ends E Q false r r' h h' = h' refl

  pub if-Post :
      {P E : S → Type 0} {Q : A → S → Type 0} {m m' : Act S A} (t : S → Bool)
      → Post P m Q E
      → Post P m' Q E
      → Post P (λ s. if t s then m s else m' s) Q E
  if-Post {P} {E} {Q} {m} {m'} t h h' = record {
    ends = λ s p. if-Ends E Q (t s) (m s) (m' s) (λ _. h.ends s p) (λ _. h'.ends s p);
  }

  pub attempt-Post :
      {P E : S → Type 0} {Q : A → S → Type 0} {m : Act S A} (F : S → Type 0)
      → Post P m Q E
      → Post P (attempt m) (λ o s. Ends Q E (o, s)) F
  unfolding attempt
  attempt-Post {P} {E} {Q} {m} F h = record { ends = λ s p. settled (m s) (h.ends s p) }
    where
      settled : (r : Outcome A × S) → Ends Q E r → Ends (λ o s. Ends Q E (o, s)) F (settle r)
      settled (ok a, s) q = q
      settled (err e, s) q = q

  weaken-Ends :
      (E F : S → Type 0) (Q R : A → S → Type 0) (r : Outcome A × S)
      → Ends Q E r
      → ((a : A) (s : S) → Q a s → R a s)
      → ((s : S) → E s → F s)
      → Ends R F r
  weaken-Ends E F Q R (ok a, s) h k l = k a s h
  weaken-Ends E F Q R (err e, s) h k l = l s h

  pub weaken-Post :
      {P E : S → Type 0} {Q : A → S → Type 0} {m : Act S A} (P' F : S → Type 0) (R : A → S → Type 0)
      → Post P m Q E
      → ((s : S) → P' s → P s)
      → ((a : A) (s : S) → Q a s → R a s)
      → ((s : S) → E s → F s)
      → Post P' m R F
  weaken-Post {P} {E} {Q} {m} P' F R h j k l = record {
    ends = λ s p. weaken-Ends E F Q R (m s) (h.ends s (j s p)) k l;
  }

  and-Ends :
      (E F : S → Type 0) (Q R : A → S → Type 0) (r : Outcome A × S)
      → Ends Q E r
      → Ends R F r
      → Ends (λ a s. Q a s × R a s) (λ s. E s × F s) r
  and-Ends E F Q R (ok a, s) h k = (h, k)
  and-Ends E F Q R (err e, s) h k = (h, k)

  pub and-Post :
      {P P' E F : S → Type 0} {Q R : A → S → Type 0} {m : Act S A}
      → Post P m Q E
      → Post P' m R F
      → Post (λ s. P s × P' s) m (λ a s. Q a s × R a s) (λ s. E s × F s)
  and-Post {P} {P'} {E} {F} {Q} {R} {m} h k = record {
    ends = λ s p. and-Ends E F Q R (m s) (h.ends s p.0) (k.ends s p.1);
  }

  -- A fact that stands among the premises.
  pub given-Post :
      {P E : S → Type 0} {Q : A → S → Type 0} {m : Act S A} (F : Type 0)
      → (F → Post P m Q E)
      → Post (λ s. F × P s) m Q E
  given-Post F k = record { ends = λ s h. (k h.0).ends s h.1 }

  -- The two ways out of a postcondition.
  pub returned-Ends :
      (E : S → Type 0) (Q : A → S → Type 0) (r : Outcome A × S) (a : A) (s : S)
      → r ≡ (ok a, s)
      → Ends Q E r
      → Q a s
  returned-Ends E Q r a s e h = subst (Ends Q E) e h

  pub either-Ends : (P : S → Type 0) (r : Outcome A × S) → Ends (λ _. P) P r → P r.1
  either-Ends P (ok a, s) h = h
  either-Ends P (err e, s) h = h
