-- ===== src/Read/Remote/Open/Answers.antt =====
-- What a server answers for an object that it keeps, and what is read of a response.
use camvault.Prelude.{
  ℕ, ◌+◌, ◌-◌, ◌≤◌, ◌≡◌, refl, sym, ap, subst, ◌∙◌, List, [], ◌∷◌, ◌++◌, flatten, true, some, arith,
  length, take, drop, slice, append_assoc, append-nil, take_all, take_left, drop_all,
  take-append-drop, length-append, length-take, ◌==◌, Bool-cases, inl, inr, ◌⊎◌,
}
use camvault.Crypto.Bytes.{Bytes}
use camvault.Crypto.Header.{header_bytes}
use camvault.Read.Remote.Open.{
  Opened, ok, err, Response, open_response, with_status, has_status, status_is, gather,
  content_start, ◌>>=◌,
}

-- The header is what the response begins with.
pub gather-eq :
    (header : Bytes) (chunks : List Bytes)
    → length header ≤ header_bytes
    → gather header chunks ≡ take header_bytes (header ++ flatten chunks)
unfolding gather flatten
gather-eq header [] h =
    sym (ap (take header_bytes) (append-nil header) ∙ take_all header_bytes header h)
gather-eq header (chunk ∷ chunks) h =
    let k : ℕ = header_bytes - length header in
    let more : Bytes = header ++ take k chunk in
    let size : length more ≡ length header + length (take k chunk) =
      omega (arith, length-append header (take k chunk)) in
    let kept : flatten (chunk ∷ chunks) ≡ take k chunk ++ (drop k chunk ++ flatten chunks) =
      ap (λ (t : Bytes). t ++ flatten chunks) (sym (take-append-drop k chunk))
      ∙ append_assoc (take k chunk) (drop k chunk) (flatten chunks) in
    let all : header ++ flatten (chunk ∷ chunks) ≡ more ++ (drop k chunk ++ flatten chunks) =
      ap (λ (t : Bytes). header ++ t) kept
      ∙ sym (append_assoc header (take k chunk) (drop k chunk ++ flatten chunks)) in
    elim (Bool-cases (length more == header_bytes)) [
      | inl e ↦ rw e (
          sym (
            ap (take header_bytes) all
            ∙ take_left header_bytes more (drop k chunk ++ flatten chunks) (ground arith)))
      | inr e ↦
          let short : length chunk ≤ k = ground (arith, length-take k chunk) in
          let none_left : drop k chunk ≡ [] = drop_all k chunk short in
          rw e (
            gather-eq more chunks (omega (arith, length-take k chunk))
            ∙ ap (take header_bytes)
                (sym (all ∙ ap (λ (t : Bytes). more ++ (t ++ flatten chunks)) none_left)))
    ]

pub bind_assoc :
    {A B C : Type 0} (o : Opened A) (f : A → Opened B) (g : B → Opened C)
    → (o >>= λ a. f a >>= g) ≡ ((o >>= f) >>= g)
bind_assoc (ok a) f g = refl
bind_assoc (err e) f g = refl

pub same : (n : ℕ) → (n == n) ≡ true
same n = ground arith

pub opened :
    (r : Response) (n : ℕ)
    → r.status ≡ some n
    → with_status r (some n) ≡ ok r
    → open_response r ≡ ok r
unfolding open_response
opened r n e h = subst (λ o. with_status r o ≡ ok r) (sym e) h

pub has_status-eq : (n m : ℕ) (r : Response) → r.status ≡ some m → has_status n r ≡ (m == n)
has_status-eq n m r e = subst (λ o. status_is n o ≡ (m == n)) (sym e) refl

-- A server that keeps an object answers with all of it, or with the range that was asked for.
pub record Keeps (object : Bytes) (get : ℕ → ℕ → Response) (first last : ℕ) : Type 0 where
  pub answer :
      ((get first last).status ≡ some 200) × (flatten (get first last).chunks ≡ object)
      ⊎ ((get first last).status ≡ some 206)
        × (content_start (get first last).content_range ≡ some first)
        × (flatten (get first last).chunks ≡ slice object first (last + 1))
