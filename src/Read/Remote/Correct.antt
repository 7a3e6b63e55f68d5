-- ===== src/Read/Remote/Correct.antt =====
-- Whatever sizes the network cuts the object into, the remote read yields the range.
use camvault.Prelude.{
  ℕ, suc, ◌+◌, ◌-◌, ◌*◌, ◌/◌, ◌≤◌, ◌<◌, ◌≡◌, sym, ap, ◌∙◌, List, [], flatten, none, min, arith,
  length, take, drop, slice, length-drop,
}
use camvault.Crypto.Bytes.{Bytes}
use camvault.Crypto.Header.{Header, IsSound, chunk_count, tag_bytes}
use camvault.Crypto.Layout.Bounds.{span, chunk_of, chunk_of-lt-count}
use camvault.Crypto.Cipher.{Aead}
use camvault.Crypto.Stream.Sealed.{seal}
use camvault.Crypto.Contents.{length-seal-min, slice-stored_many, stored}
use camvault.Read.Pieces.{pieces-eq-slice}
use camvault.Read.Remote.{decrypt_remote_range}
use camvault.Read.Remote.Sources.{decrypt_sources_lem}

span_arith :
    (c p f l : ℕ)
    → f ≤ l
    → l * c < p
    → 32 + l * (c + 16) + min c (p - l * c) + 16 - 1 - (32 + f * (c + 16)) + 1
      ≡ min ((l + 1 - f) * c) (p - f * c) + (l + 1 - f) * 16
span_arith c p f l le below =
    let d : ℕ = l - f in
    let w : l ≡ f + d = omega arith in
    let v : l + 1 - f ≡ suc d = omega arith in
    omega (arith, ap (λ (t : ℕ). t * c) w, ap (λ (t : ℕ). t * c) v, ap (λ (t : ℕ). t * (c + 16)) w)

module _ (aead : Aead) (key digest : Bytes) (h : Header) (plaintext : Bytes) (s : IsSound h)
    (total : length plaintext ≡ h.plaintext_size) where
  abbrev pub span_size : ℕ → ℕ → ℕ
  span_size start last = (span h start last).stored_end - (span h start last).stored_start + 1

  length-span :
      (start last : ℕ)
      → start ≤ last
      → last < h.plaintext_size
      → span_size start last
        ≡ length (
            flatten (
              seal aead key digest h
                (last / h.chunk_size + 1 - start / h.chunk_size)
                (start / h.chunk_size)
                (drop (start / h.chunk_size * h.chunk_size) plaintext)))
  length-span start last order inside =
      let c : ℕ = h.chunk_size in
      let sized : 1 ≤ c = omega (arith, s.min_chunk) in
      let (a, _) = chunk_of start c sized in
      let (b, _) = chunk_of last c sized in
      let le : start / c ≤ last / c = grind arith in
      span_arith c h.plaintext_size (start / c) (last / c) le (omega arith)
      ∙ sym (
          length-seal-min aead key digest h (last / c + 1 - start / c) (start / c)
            (drop (start / c * c) plaintext)
          ∙ ap
              (λ t. min ((last / c + 1 - start / c) * c) t + (last / c + 1 - start / c) * tag_bytes)
              (length-drop (start / c * c) plaintext ∙ ap (λ t. t - start / c * c) total))

  -- For a sound header, a plaintext of its declared length and a range inside it: if the response,
  -- behind the bytes to skip, begins with the span of a range, the generator ends
  -- well and yields that range of the plaintext, in whatever sizes the response arrives.
  pub decrypt_remote_range-eq :
      (start last skip : ℕ) (sources : List Bytes)
      → start ≤ last
      → last < h.plaintext_size
      → take (span_size start last) (drop skip (flatten sources))
        ≡ take
            (span_size start last)
            (drop (span h start last).stored_start (stored aead key digest h plaintext))
      → let body =
          decrypt_remote_range aead key digest h
            (span h start last).first_chunk
            (span h start last).last_chunk
            (span_size start last)
            skip
            start
            last
            sources in
        (body.failure ≡ none) × (flatten body.out ≡ slice plaintext start (last + 1))
  unfolding decrypt_remote_range
  decrypt_remote_range-eq start last skip sources order inside response =
      let c : ℕ = h.chunk_size in
      let sized : 1 ≤ c = omega (arith, s.min_chunk) in
      let (a, b) = chunk_of start c sized in
      let (d, e) = chunk_of last c sized in
      let le : start / c ≤ last / c = grind arith in
      let fits : last / c < chunk_count h = chunk_of-lt-count h last sized inside in
      let n : ℕ = last / c + 1 - start / c in
      let size : ℕ = span_size start last in
      let len : size ≡ _ = length-span start last order inside in
      let held : take size (drop skip (flatten sources)) ≡ _ =
        response
        ∙ slice-stored_many aead key digest h plaintext s total (start / c) n size (omega arith)
            (omega arith) len in
      let (good, same) =
        decrypt_sources_lem aead key digest h plaintext s total (last / c) start last fits sources n
          (start / c) skip size []
          (record {
            count = omega arith;
            more = omega arith;
            enough = ap length held ∙ sym len;
            kept = held;
            short = λ q. omega arith;
          }) in
      (
        good,
        same
            ∙ pieces-eq-slice c plaintext start (last + 1) (omega arith) (omega arith) (start / c)
                (last / c) a b (omega arith) (omega arith) le,
      )
