-- ===== src/Read/Remote/Open/Served.antt =====
-- A range that is opened on the server is that range of the plaintext.
use camvault.Prelude.{
  ℕ, ◌+◌, ◌-◌, ◌≤◌, ◌<◌, ◌≡◌, refl, sym, ap, subst, ap₂, ◌∙◌, [], flatten, Bool, true, false,
  Option, some, arith, length, take, drop, slice, length-slice, ◌==◌, inl, inr, if◌then◌else◌,
  take-take_le,
}
use camvault.Crypto.Bytes.{Bytes}
use camvault.Crypto.Header.{Header, IsSound, header_bytes, parse_header}
use camvault.Crypto.Layout.{Span}
use camvault.Crypto.Layout.Bounds.{span, span_for_range-eq, span-Covers}
use camvault.Crypto.Cipher.{Aead}
use camvault.Crypto.Contents.{stored}
use camvault.Read.Range.{Text, Selected, resolve_byte_range}
use camvault.Read.Range.Resolved.{InObject, resolve_byte_range-InObject}
use camvault.Read.Local.{Reply}
use camvault.Read.Local.Correct.{Serves, parse-stored}
use camvault.Read.Remote.Correct.{span_size, decrypt_remote_range-eq}
use camvault.Read.Remote.Open.{
  Opened, ok, Response, open_response, with_status, has_status, begins_at, content_start, is_placed,
  reply_from, open_range, open_selected, checked, header_of, from_crypto, open_encrypted_recording,
  ◌>>=◌,
}
use camvault.Read.Remote.Open.Answers.{Keeps, gather-eq, bind_assoc, same, opened, has_status-eq}

module _ (aead : Aead) (key digest : Bytes) (h : Header) (plaintext : Bytes) (s : IsSound h)
    (total : length plaintext ≡ h.plaintext_size) (get : ℕ → ℕ → Response) where
  abbrev object : Bytes
  object = stored aead key digest h plaintext

  header_found :
      (r : Response) (n : ℕ)
      → r.status ≡ some n
      → with_status r (some n) ≡ ok r
      → (n == 416) ≡ false
      → take header_bytes (flatten r.chunks) ≡ take header_bytes object
      → (open_response r >>= header_of) ≡ ok h
  unfolding open_response
  header_found r n e fine other begins =
      ap (λ o. o >>= header_of) (opened r n e fine)
      ∙ rw (has_status-eq 416 n r e ∙ other) (
          ap from_crypto (
            ap parse_header (gather-eq [] r.chunks (omega arith) ∙ begins)
            ∙ parse-stored aead key digest h plaintext s total))

  header_opened :
      Keeps object get 0 (header_bytes - 1)
      → (open_response (get 0 (header_bytes - 1)) >>= header_of) ≡ ok h
  header_opened keeps = elim keeps.answer [
    | inl (status, bytes) ↦ header_found _ 200 status refl refl (ap (take header_bytes) bytes)
    | inr (status, start, bytes) ↦
        header_found _ 206 status refl refl (
          ap (take header_bytes) bytes
          ∙ take-take_le header_bytes header_bytes object (omega arith))
  ]

  module _ (r : Selected) (order : r.start ≤ r.last) (inside : r.last < h.plaintext_size) where
    range_found :
        (response : Response)
        → take (span_size aead key digest h plaintext s total r.start r.last) (
            drop
              (if has_status 200 response then (span h r.start r.last).stored_start else 0)
              (flatten response.chunks))
          ≡ take
              (span_size aead key digest h plaintext s total r.start r.last)
              (drop (span h r.start r.last).stored_start object)
        → Serves plaintext r (reply_from aead key digest get h r (span h r.start r.last) response)
    unfolding reply_from
    range_found response begins =
        let (good, same) =
          decrypt_remote_range-eq aead key digest h plaintext s total r.start r.last _
            response.chunks order inside begins in
        record {
          status = refl;
          complete = good;
          bytes = same;
          declared = sym (
              ap length same
              ∙ length-slice plaintext r.start (r.last + 1) (omega (arith, total))
              ∙ omega (arith, order));
        }

    abbrev whole : Span
    whole = span h r.start r.last

    abbrev size : ℕ
    size = span_size aead key digest h plaintext s total r.start r.last

    checked_at_200 :
        (response : Response)
        → response.status ≡ some 200
        → checked aead key digest get h r whole response
          ≡ ok (reply_from aead key digest get h r whole response)
    checked_at_200 response e =
        rw (has_status-eq 416 200 response e, has_status-eq 206 200 response e) refl

    checked_at_206 :
        (response : Response)
        → response.status ≡ some 206
        → content_start response.content_range ≡ some whole.stored_start
        → checked aead key digest get h r whole response
          ≡ ok (reply_from aead key digest get h r whole response)
    checked_at_206 response e e' =
        let placed : is_placed whole.stored_start response ≡ true =
          subst (λ o. begins_at whole.stored_start o ≡ true) (sym e') (same whole.stored_start) in
        rw (has_status-eq 416 206 response e, has_status-eq 206 206 response e, placed) refl

    -- The range of a response with status 206.
    part_begins :
        (bytes : Bytes)
        → bytes ≡ slice object whole.stored_start (whole.stored_end + 1)
        → take size (drop 0 bytes) ≡ take size (drop whole.stored_start object)
    part_begins bytes e =
        let covers = span-Covers h r.start r.last (omega (arith, s.min_chunk)) order inside in
        ap (take size) e
        ∙ take-take_le size _ (drop whole.stored_start object) (omega (arith, covers.not_empty))

    range_opened :
        Keeps object get whole.stored_start whole.stored_end
        → (reply : Reply) × (open_range aead key digest get h r ≡ ok reply)
          × Serves plaintext r reply
    unfolding open_range
    range_opened keeps =
        let sized : 1 ≤ h.chunk_size = omega (arith, s.min_chunk) in
        let response : Response = get whole.stored_start whole.stored_end in
        let found = λ (o : Opened Response). (o >>= checked aead key digest get h r whole) in
        let first =
          ap
            (λ o. from_crypto o >>= λ w.
              open_response (get w.stored_start w.stored_end) >>= checked aead key digest get h r w)
            (span_for_range-eq h r.start r.last sized order inside) in
        elim keeps.answer [
          | inl (status, bytes) ↦ (
            reply_from aead key digest get h r whole response,
            first ∙ ap found (opened response 200 status refl) ∙ checked_at_200 response status,
            range_found response (
                ap₂ (λ (skip : ℕ) (b : Bytes). take size (drop skip b))
                  (ap (λ (t : Bool). if t then whole.stored_start else 0)
                    (has_status-eq 200 200 response status))
                  bytes),
          )
          | inr (status, start, bytes) ↦ (
            reply_from aead key digest get h r whole response,
            first
                ∙ ap found (opened response 206 status refl)
                ∙ checked_at_206 response status start,
            range_found response (
                ap (λ (skip : ℕ). take size (drop skip (flatten response.chunks)))
                  (ap (λ (t : Bool). if t then whole.stored_start else 0)
                    (has_status-eq 200 206 response status))
                ∙ part_begins (flatten response.chunks) bytes),
          )
        ]

  -- With the key, and for a sound header and a plaintext of its length, where the server answers the
  -- requests for the header and for the span of the range from the stored archive, every satisfiable
  -- range is opened: the reply has the selected status, its body ends without an error and holds
  -- exactly the range of the plaintext, and its declared length is that of the body.
  pub open_encrypted_recording-Serves :
      (range : Option Text) (r : Selected)
      → resolve_byte_range range h.plaintext_size ≡ some r
      → Keeps object get 0 (header_bytes - 1)
      → Keeps object get (span h r.start r.last).stored_start (span h r.start r.last).stored_end
      → (reply : Reply) × (open_encrypted_recording aead (some key) digest get range ≡ ok reply)
        × Serves plaintext r reply
  unfolding open_encrypted_recording
  open_encrypted_recording-Serves range r e keeps keeps' =
      let v : InObject h.plaintext_size r =
        resolve_byte_range-InObject range h.plaintext_size r e in
      let (reply, found, serves) = range_opened r v.ordered v.inside keeps' in
      (
        reply,
        bind_assoc (open_response (get 0 (header_bytes - 1))) header_of (λ h'.
              open_selected aead key digest get h' (resolve_byte_range range h'.plaintext_size))
            ∙ ap
                (λ o. o >>= λ h'.
                  open_selected aead key digest get h' (resolve_byte_range range h'.plaintext_size))
                (header_opened keeps)
            ∙ ap (λ o. open_selected aead key digest get h o) e
            ∙ found,
        serves,
      )
