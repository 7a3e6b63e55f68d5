-- ===== src/Webdav/Examples.antt =====
-- A server that keeps its objects in memory, and an upload of three bytes to it.
use camvault.Prelude.{
  ℕ, ◌≡◌, refl, sym, ap, [], ◌∷◌, ◌++◌, Bool, true, false, Option, none, some, if◌then◌else◌, arith,
  flatten, append-nil, text_eq_refl,
}
use camvault.Crypto.Bytes.{Bytes}
use camvault.Read.Range.{Text}
use camvault.Webdav.Acts.{ok, ◌>>=◌, attempt, rescue}
use camvault.Webdav.Server.{Answer, Got, is_stored, Target, above, Server, Backend}
use camvault.Webdav.Body.{body}
use camvault.Webdav.Client.{
  Client, target_eq, start, connect, request, ensure_collections, ensure_below, is_member,
  make_collection, put, url, delete, invalidate_camera, move,
}
use camvault.Outbox.Paths.{safe_webdav_relative, split, path_parts}
use camvault.Webdav.Paths.{archive_sidecar_path, partial_name}
use camvault.Webdav.Upload.{
  Prepared, media_path, metadata_path, write_prepared, parent_parts, store_pair, commit,
}
use camvault.Webdav.Upload.Commit.{Placed}
use camvault.Webdav.Upload.Pair.{MediaStored, MetadataStored}
use camvault.Webdav.Upload.Stored.{write_prepared-Stored}
use camvault.Webdav.Upload.Ordered.{Ordered, write_prepared-Ordered}

abbrev Objects : Type 0
Objects = Target → Option Bytes

-- The objects with the one at a path replaced.
change : Target → Option Bytes → Objects → Objects
change p o s q = if target_eq p q then o else s q

put_whole : Target → Bytes → Bool → Objects → Answer × Objects
put_whole p bytes true s = (some 201, change p (some bytes) s)
put_whole p bytes false s = (none, change p (some bytes) s)

-- `Overwrite: F`
move_object : Target → Target → Objects → Answer × Objects
move_object p q s = elim (s p) [
  | none ↦ (some 404, s)
  | some bytes ↦ elim (s q) [
    | none ↦ (some 201, change q (some bytes) (change p none s))
    | some old ↦ (some 412, s)
  ]
]

got : Option Bytes → Got
got none = record { status = some 404; declared = none; chunks = []; broken = false }
got (some bytes) = record {
  status = some 200;
  declared = none;
  chunks = bytes ∷ [];
  broken = false;
}

target_eq_refl : (p : Target) → target_eq p p ≡ true
unfolding target_eq
target_eq_refl [] = refl
target_eq_refl (c ∷ cs) = ground (arith, text_eq_refl c, target_eq_refl cs)

target_eq-above : (p q : Target) → above p q ≡ false → target_eq p q ≡ false
unfolding target_eq
target_eq-above [] q h = cc
target_eq-above (c ∷ cs) [] h = refl
target_eq-above (c ∷ cs) (d ∷ ds) h = ground (arith, target_eq-above cs ds)

put_whole_stored :
    (p : Target) (bytes : Bytes) (s : Objects) (status : ℕ)
    → (put_whole p bytes true s).0 ≡ some status
    → is_stored status ≡ true
    → (put_whole p bytes true s).1 p ≡ some bytes
unfolding put_whole change
put_whole_stored p bytes s status e h = rw (target_eq_refl p) refl

put_whole_apart :
    (p q : Target) (bytes : Bytes) (whole : Bool) (s : Objects)
    → above p q ≡ false
    → (put_whole p bytes whole s).1 q ≡ s q
unfolding put_whole change
put_whole_apart p q bytes true s h = rw (target_eq-above p q h) refl
put_whole_apart p q bytes false s h = rw (target_eq-above p q h) refl

move_object_moved :
    (p q : Target) (s : Objects) (status : ℕ)
    → (move_object p q s).0 ≡ some status
    → is_stored status ≡ true
    → (move_object p q s).1 q ≡ s p
unfolding move_object change
move_object_moved p q s status e h = ground (arith, target_eq_refl q)

move_object_apart :
    (p q r : Target) (s : Objects)
    → above p r ≡ false
    → above q r ≡ false
    → (move_object p q s).1 r ≡ s r
unfolding move_object change
move_object_apart p q r s h k = ground (arith, target_eq-above p r h, target_eq-above q r k)

delete_apart : (p q : Target) (s : Objects) → above p q ≡ false → change p none s q ≡ s q
unfolding change
delete_apart p q s h = rw (target_eq-above p q h) refl

got_whole :
    (o : Option Bytes)
    → (got o).status ≡ some 200
    → (got o).broken ≡ false
    → o ≡ some (flatten (got o).chunks)
unfolding got flatten
got_whole none e h = ground arith
got_whole (some bytes) e h = ap some (sym (append-nil bytes))

abbrev memory : Server
memory = record {
  State = Objects;
  content = λ q s. s q;
  options = λ s. (some 200, s);
  make_collection = λ p s. (some 201, s);
  put = put_whole;
  move = move_object;
  get = λ p s. (got (s p), s);
  delete = λ p s. (some 204, change p none s);
  options-content = λ q s. refl;
  make_collection-content = λ q p s. refl;
  put_stored = put_whole_stored;
  put_apart = put_whole_apart;
  move_moved = move_object_moved;
  move_apart = move_object_apart;
  get-content = λ p q s. refl;
  get_whole = λ p s. got_whole (s p);
  delete_apart = delete_apart;
}

abbrev root : Target
root = (b'r' ∷ []) ∷ []

-- Three bytes, of which the digest is themselves.
abbrev backend : Backend
backend = record { server = memory; root = root; digest = λ bytes. bytes; atomic_upload = true }

abbrev fresh : Client backend
fresh = record {
  remote = λ q. none;
  started = false;
  ensured = [];
  cached = [];
  managed = some 10;
  source_chunks = 0;
}

-- "h/n.ts" of the camera "c"
abbrev prepared : Prepared
prepared = record {
  camera_id = b'c' ∷ [];
  relative_path = b'h' ∷ b'/' ∷ b'n' ∷ b'.' ∷ b't' ∷ b's' ∷ [];
  size_bytes = 3;
  media_chunks = record { chunks = (1 ∷ 2 ∷ []) ∷ [] ∷ (3 ∷ []) ∷ []; breaks = false };
  metadata_chunks = record { chunks = (4 ∷ []) ∷ []; breaks = false };
  media_size = 3;
  metadata_size = 1;
}

abbrev directory : Target
directory = (b'c' ∷ []) ∷ (b'h' ∷ []) ∷ []

abbrev media_name : Text
media_name = b'n' ∷ b'.' ∷ b't' ∷ b's' ∷ []

abbrev metadata_name : Text
metadata_name = b'n' ∷ b'.' ∷ b'j' ∷ b's' ∷ b'o' ∷ b'n' ∷ []

placed : Placed backend prepared
unfolding safe_webdav_relative media_path metadata_path archive_sidecar_path partial_name
placed = record {
  media = directory ++ media_name ∷ [];
  metadata = directory ++ metadata_name ∷ [];
  media_partial = directory ++ partial_name media_name ∷ [];
  metadata_partial = directory ++ partial_name metadata_name ∷ [];
  media_is = refl;
  metadata_is = refl;
  media_partial_is = refl;
  metadata_partial_is = refl;
  media_partial_media = refl;
  media_partial_metadata = refl;
  media_metadata = refl;
  metadata_media = refl;
  metadata_partial_media = refl;
  metadata_partial_metadata = refl;
}

written : write_prepared backend prepared fresh ≡ (ok tt, (write_prepared backend prepared fresh).1)
unfolding write_prepared ◌>>=◌ start connect request ensure_collections ensure_below is_member
    make_collection parent_parts media_path rescue store_pair commit put url safe_webdav_relative
    partial_name path_parts split attempt body delete invalidate_camera move archive_sidecar_path
    metadata_path flatten change put_whole move_object target_eq
written = refl

write_prepared-Stored_example :
    MediaStored backend prepared placed (write_prepared backend prepared fresh).1.remote
    × MetadataStored backend prepared placed (write_prepared backend prepared fresh).1.remote
write_prepared-Stored_example =
    write_prepared-Stored backend prepared placed fresh (write_prepared backend prepared fresh).1
      written

write_prepared-Ordered_example :
    Ordered backend prepared placed none (write_prepared backend prepared fresh).1.remote
write_prepared-Ordered_example = write_prepared-Ordered backend prepared placed fresh
