-- ===== src/Outbox/Prepare/Served.antt =====
-- A batch that is prepared and written can be read back by ranges.
use camvault.Prelude.{
  ℕ, ◌≡◌, refl, sym, ap, ap₂, ◌∙◌, subst, List, [], ◌∷◌, ◌++◌, true, Option, none, some, arith,
  length, flatten, inl, inr, ◌⊎◌,
}
use camvault.Crypto.Bytes.{Bytes}
use camvault.Crypto.Header.{CryptoError, Header, Result, ok, err, IsSound, new_header}
use camvault.Crypto.Header.RoundTrip.{new_header-IsSound}
use camvault.Crypto.Layout.{encrypted_size}
use camvault.Crypto.Contents.{stored, length-stored}
use camvault.Crypto.Stream.{Run, encrypt_archive}
use camvault.Crypto.Stream.Sealed.{encrypt_archive-eq}
use camvault.Read.Range.{Text, Selected, resolve_byte_range}
use camvault.Read.Local.{Reply, local_read, ends_with_enc}
use camvault.Read.Local.Correct.{Serves, local_read_encrypted}
use camvault.Archive.Names.Pattern.{enc_suffix}
use camvault.Outbox.Disk.{Disk, Act, Folder, find, apply_all}
use camvault.Outbox.Disk.Laws.{name_eq_refl}
use camvault.Outbox.Entry.{Entry, identifier_of}
use camvault.Outbox.Persist.{
  Prepared, Setup, Memory, plan, write, pending_name, manifest_of, write_files, commit,
}
use camvault.Outbox.Persist.Laws.{written_folder, find_all_written}
use camvault.Outbox.Persist.Plans.{plan-Facts, new_entry}
use camvault.Outbox.Prepare.{
  Sealing, ArchiveBatch, context_of, with_length, encrypt_chunks, sealed_archive, encrypted_archive,
  prepare_archive,
}

header_of : Sealing → Bytes → List Bytes → Header
header_of c nonce sources = record {
  chunk_size = c.chunk_size;
  plaintext_size = length (flatten sources);
  nonce_base = nonce;
}

Result-cases {ℓ} :
    {A : Type ℓ} (r : Result A) → ((e : CryptoError) × (r ≡ err e)) ⊎ ((a : A) × (r ≡ ok a))
Result-cases (ok a) = inr (a, refl)
Result-cases (err e) = inl (e, refl)

-- A stream that ends well has a sound header.
outcome-IsSound :
    (c : Sealing) (key nonce digest : Bytes) (sources : List Bytes)
    → (encrypt_archive c.aead key digest
        (length (flatten sources))
        c.chunk_size
        nonce
        sources).outcome
      ≡ ok tt
    → IsSound (header_of c nonce sources)
unfolding encrypt_archive header_of
outcome-IsSound c key nonce digest sources h =
    elim (Result-cases (new_header (length (flatten sources)) c.chunk_size nonce)) [
      | inl (e, bad) ↦
          absurd (let q : err e ≡ ok tt = rw (bad, encrypt_archive) at h in ground arith)
      | inr (g, good) ↦
          let (sound, size, chunk, base) =
            new_header-IsSound (length (flatten sources)) c.chunk_size nonce g good in
          let q : g ≡ header_of c nonce sources = ground arith in subst IsSound q sound
    ]

with_length_ok :
    (run : Run) (o : Result (Unit {0})) (size : Result ℕ) (bytes : Bytes) (n : ℕ)
    → with_length run o size ≡ some (bytes, n)
    → (o ≡ ok tt) × (size ≡ ok n) × (flatten run.out ≡ bytes)
unfolding with_length
with_length_ok run (err e) size bytes n h = absurd (ground arith)
with_length_ok run (ok u) (err e) bytes n h = absurd (ground arith)
with_length_ok run (ok u) (ok size) bytes n h = (refl, ground arith, ground arith)

-- What an encrypted file is: the stored object of its plaintext, of the computed size.
encrypt_chunks-stored :
    (c : Sealing) (key nonce : Bytes) (context : Text) (sources : List Bytes) (bytes : Bytes)
    (n : ℕ)
    → encrypt_chunks c key nonce context sources ≡ some (bytes, n)
    → IsSound (header_of c nonce sources)
      × (bytes
          ≡ stored c.aead key
              (c.context_hash context)
              (header_of c nonce sources)
              (flatten sources))
      × (length bytes ≡ n)
unfolding encrypt_chunks stored header_of
encrypt_chunks-stored c key nonce context sources bytes n h =
    let digest = c.context_hash context in
    let run =
      encrypt_archive c.aead key digest (length (flatten sources)) c.chunk_size nonce sources in
    let (well, size, out) =
      with_length_ok run run.outcome (encrypted_size (length (flatten sources)) c.chunk_size) bytes
        n h in
    let sound = outcome-IsSound c key nonce digest sources well in
    let head = header_of c nonce sources in
    let same : bytes ≡ stored c.aead key digest head (flatten sources) =
      sym out
      ∙ ap (λ (r : Run). flatten r.out)
          (encrypt_archive-eq c.aead key digest head sources sound refl) in
    let sizes : ok n ≡ ok (length (stored c.aead key digest head (flatten sources))) =
      sym size ∙ length-stored c.aead key digest head (flatten sources) sound refl in
    let m : n ≡ length (stored c.aead key digest head (flatten sources)) = ground arith in
    (sound, same, ap length same ∙ sym m)

ends_with_enc_lem : (xs : Text) → ends_with_enc (xs ++ enc_suffix) ≡ true
unfolding ends_with_enc
ends_with_enc_lem [] = refl
ends_with_enc_lem (a ∷ []) = refl
ends_with_enc_lem (a ∷ b ∷ []) = refl
ends_with_enc_lem (a ∷ b ∷ c ∷ []) = refl
ends_with_enc_lem (a ∷ b ∷ c ∷ d ∷ []) = refl
ends_with_enc_lem (a ∷ b ∷ c ∷ d ∷ e ∷ xs) = ends_with_enc_lem (b ∷ c ∷ d ∷ e ∷ xs)

sealed_archive_ok :
    (b : ArchiveBatch) (relative : Text) (media sealed : Option (Bytes × ℕ)) (p : Prepared)
    → sealed_archive b relative media sealed ≡ some p
    → (media ≡ some (p.media, p.media_size))
      × (sealed ≡ some (p.metadata, p.metadata_size))
      × (p.camera_id ≡ b.camera_id)
      × (p.relative_path ≡ relative)
unfolding sealed_archive
sealed_archive_ok b relative none sealed p h = absurd (ground arith)
sealed_archive_ok b relative (some media) none p h = absurd (ground arith)
sealed_archive_ok b relative (some (media, n)) (some (metadata, k)) p h =
    (ground arith, ground arith, ground arith, ground arith)

-- An encrypted batch that is prepared is the stored object of its segments.
prepared_stored :
    (c : Sealing) (b : ArchiveBatch) (p : Prepared) (key : Bytes)
    → c.enabled ≡ true
    → c.key ≡ some key
    → prepare_archive c b ≡ some p
    → IsSound (header_of c b.media_nonce b.segments)
      × (p.media
          ≡ stored c.aead key
              (c.context_hash (context_of p.camera_id p.relative_path))
              (header_of c b.media_nonce b.segments)
              (flatten b.segments))
      × (ends_with_enc p.relative_path ≡ true)
unfolding prepare_archive encrypted_archive
prepared_stored c b p key enabled known h =
    let sealed = rw (enabled, prepare_archive, known, encrypted_archive) at h in
    let (media, metadata, camera, relative) = sealed_archive_ok b _ _ _ p sealed in
    let (sound, same, size) =
      encrypt_chunks-stored c key b.media_nonce _ b.segments p.media p.media_size media in
    (
      sound,
      same
          ∙ ap₂
              (λ x y.
                stored c.aead key (c.context_hash (context_of x y))
                  (header_of c b.media_nonce b.segments) (flatten b.segments))
              (sym camera) (sym relative),
      ap ends_with_enc relative ∙ ends_with_enc_lem b.relative_path,
    )

-- The directory that a plan leaves holds the batch's media, under the batch's camera and path.
written_media :
    (s : Setup) (m : Memory) (d : Disk) (free : ℕ) (p : Prepared) (e : Entry) (acts : List Act)
    (f : Folder)
    → plan s m d free p ≡ write e acts
    → find e.folder (apply_all acts d) ≡ some f
    → (f.media ≡ some p.media)
      × (e.manifest.camera_id ≡ p.camera_id)
      × (e.manifest.relative_path ≡ p.relative_path)
unfolding new_entry manifest_of
written_media s m d free p e acts f planned there =
    let (missing, entry, all, fits, media, metadata, spare) = plan-Facts s m d free p _ planned in
    let i = identifier_of s.name_hash p.camera_id p.relative_path in
    let whole : find (pending_name i) (apply_all (write_files i p ++ commit s i p) d)
        ≡ some (written_folder s p) =
      find_all_written s i i p d ∙ rw (name_eq_refl (pending_name i)) in
    let same : find e.folder (apply_all acts d) ≡ some (written_folder s p) =
      ap₂ (λ (x : Entry) (y : List Act). find x.folder (apply_all y d)) entry all ∙ whole in
    let folder : f ≡ written_folder s p =
      let q : some f ≡ some (written_folder s p) = sym there ∙ same in ground arith in
    (
      ap (λ (x : Folder). x.media) folder,
      ap (λ (x : Entry). x.manifest.camera_id) entry,
      ap (λ (x : Entry). x.manifest.relative_path) entry,
    )

-- Where encryption is enabled and the key is there, and a prepared batch is written as a new entry,
-- the entry's directory holds a media file that serves every satisfiable range of the batch's
-- segments: `_local_read` gives a reply whose body ends well, with the bytes of the range.
pub persisted_batch-Serves :
    (c : Sealing) (b : ArchiveBatch) (p : Prepared) (key : Bytes) (s : Setup) (m : Memory)
    (d : Disk) (free : ℕ) (e : Entry) (acts : List Act) (f : Folder) (range : Option Text)
    (r : Selected)
    → c.enabled ≡ true
    → c.key ≡ some key
    → prepare_archive c b ≡ some p
    → plan s m d free p ≡ write e acts
    → find e.folder (apply_all acts d) ≡ some f
    → resolve_byte_range range (length (flatten b.segments)) ≡ some r
    → (file : Bytes) × (f.media ≡ some file)
      × (reply : Reply) × (local_read c.aead
            (some key)
            (c.context_hash (context_of e.manifest.camera_id e.manifest.relative_path))
            file
            e.manifest.relative_path
            e.manifest.plaintext_size
            range
          ≡ ok reply)
      × Serves (flatten b.segments) r reply
unfolding header_of
persisted_batch-Serves c b p key s m d free e acts f range r enabled known prepared planned there
      selected =
    let (sound, same, enc) = prepared_stored c b p key enabled known prepared in
    let (media, camera, relative) = written_media s m d free p e acts f planned there in
    let digest = c.context_hash (context_of p.camera_id p.relative_path) in
    let (reply, reads, serves) =
      local_read_encrypted c.aead key digest (header_of c b.media_nonce b.segments)
        (flatten b.segments) sound refl e.manifest.relative_path e.manifest.plaintext_size range r
        (ap ends_with_enc relative ∙ enc) selected in
    (
      p.media,
      media,
      reply,
      ap₂
            (λ (x y : Bytes).
              local_read c.aead (some key) x y e.manifest.relative_path e.manifest.plaintext_size
                range)
            (ap₂ (λ (x y : Text). c.context_hash (context_of x y)) camera relative) same
          ∙ reads,
      serves,
    )
