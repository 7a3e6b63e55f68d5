-- ===== src/Webdav/Body.antt =====
-- storage.py: `body` of `_put`, which hands the caller's chunks to the request and counts them, and
-- the loop of `_object_matches`.
use camvault.Prelude.{
  ℕ, suc, ◌+◌, ◌≡◌, List, [], ◌∷◌, ◌++◌, Bool, true, false, Option, none, some, if◌then◌else◌, ltb,
  ◌==◌, arith, flatten, length, length-append, Bool-cases, inl, inr, refl, sym, ap, ◌∙◌,
  eq-nil_of_length,
}
use camvault.Crypto.Bytes.{Bytes}
use camvault.Webdav.Acts.{Failure, backend, source}

-- The caller's chunks; `breaks` where an exception follows the last of them.
pub record Source : Type 0 where
  pub chunks : List Bytes
  pub breaks : Bool

-- The chunks that are handed over, their number with the one that is too much, and how the body ends.
pub record Body : Type 0 where
  pub yielded : List Bytes
  pub taken : ℕ
  pub raises : Option Failure

abbrev at_end : Bool → Bool → Option Failure
at_end true fits = some source
at_end false fits = if fits then none else some (backend none)

unfoldable pub body : Bool → ℕ → ℕ → List Bytes → Body
body breaks content_length sent [] = record {
  yielded = [];
  taken = 0;
  raises = at_end breaks (sent == content_length);
}
body breaks content_length sent (chunk ∷ chunks) =
    let more = body breaks content_length (sent + length chunk) chunks in
    if length chunk == 0
    then more
    else if ltb content_length (sent + length chunk)
    then record { yielded = []; taken = 1; raises = some (backend none) }
    else record { yielded = chunk ∷ more.yielded; taken = suc more.taken; raises = more.raises }

-- The whole size, unless a chunk exceeds `size`.
unfoldable pub fits : ℕ → ℕ → List Bytes → Bool
fits size received [] = received == size
fits size received (chunk ∷ chunks) =
    let rest = fits size (received + length chunk) chunks in
    if ltb size (received + length chunk) then false else rest

pub fits-length :
    (size received : ℕ) (chunks : List Bytes)
    → fits size received chunks ≡ true
    → received + length (flatten chunks) ≡ size
unfolding fits flatten
fits-length size received [] h = ground arith
fits-length size received (chunk ∷ chunks) h =
    ground (
      arith,
      fits-length size (received + length chunk) chunks,
      length-append chunk (flatten chunks),
    )

-- A body that ends well has handed over all of the chunks, and as many bytes as declared.
pub body_whole :
    (breaks : Bool) (content_length sent : ℕ) (chunks : List Bytes)
    → (body breaks content_length sent chunks).raises ≡ none
    → (flatten (body breaks content_length sent chunks).yielded ≡ flatten chunks)
      × (sent + length (flatten chunks) ≡ content_length)
unfolding body flatten
body_whole true content_length sent [] h = cc
body_whole false content_length sent [] h = elim (Bool-cases (sent == content_length)) [
  | inl e ↦ (refl, ground arith)
  | inr e ↦ ground arith
]
body_whole breaks content_length sent (chunk ∷ chunks) h =
    let ih = body_whole breaks content_length (sent + length chunk) chunks in
    elim (Bool-cases (length chunk == 0)) [
      | inl e ↦
          let z : length chunk ≡ 0 = ground arith in
          let (p, q) = ih (ground arith) in
          (
            rw e (p ∙ ap (λ (x : Bytes). x ++ flatten chunks) (sym (eq-nil_of_length chunk z))),
            omega (arith, q, z, length-append chunk (flatten chunks)),
          )
      | inr e ↦ elim (Bool-cases (ltb content_length (sent + length chunk))) [
        | inl over ↦ ground arith
        | inr room ↦
            let (p, q) = ih (ground arith) in
            (
              rw (e, room) (ap (λ (x : Bytes). chunk ++ x) p),
              omega (arith, q, length-append chunk (flatten chunks)),
            )
      ]
    ]
