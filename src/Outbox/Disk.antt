-- ===== src/Outbox/Disk.antt =====
-- The outbox's directory. Each of its directories has a name of one of three kinds: an entry's
-- identifier, `<identifier>.partial` while it is written, and `.<identifier>.committed` once the
-- remote pair is durable. Inside are at most the three files of an entry, which are no links. The
-- lock and the target file are not modelled.
pub mod Laws
use camvault.Prelude.{
  ℕ, List, [], ◌∷◌, Bool, true, false, ◌&&◌, Option, none, some, if◌then◌else◌, text_eq,
}
use camvault.Crypto.Bytes.{Bytes}
use camvault.Read.Range.{Text}

-- entry.json
pub record Manifest : Type 0 where
  pub camera_id : Text
  pub relative_path : Text
  pub plaintext_size : ℕ
  pub media_size : ℕ
  pub metadata_size : ℕ
  pub media_hash : Text
  pub metadata_hash : Text

-- The manifest's size, and its fields if it is an object of JSON with these fields, of their types.
pub record Json : Type 0 where
  pub size : ℕ
  pub content : Option Manifest

pub record Folder : Type 0 where
  pub media : Option Bytes
  pub metadata : Option Bytes
  pub manifest : Option Json

pub data Kind : Type 0 where
  pending partial committed : Kind

pub record Name : Type 0 where
  pub kind : Kind
  pub id : Text

abbrev pub kind_eq : Kind → Kind → Bool
kind_eq pending pending = true
kind_eq pending partial = false
kind_eq pending committed = false
kind_eq partial pending = false
kind_eq partial partial = true
kind_eq partial committed = false
kind_eq committed pending = false
kind_eq committed partial = false
kind_eq committed committed = true

unfoldable pub name_eq : Name → Name → Bool
name_eq a b = kind_eq a.kind b.kind && text_eq a.id b.id

abbrev pub Disk : Type 0
Disk = List (Name × Folder)

abbrev pub empty_folder : Folder
empty_folder = record { media = none; metadata = none; manifest = none }

unfoldable pub find : Name → Disk → Option Folder
unfolding name_eq
find n [] = none
find n ((m, f) ∷ d) = if name_eq m n then some f else find n d

unfoldable pub put : Name → Folder → Disk → Disk
unfolding name_eq
put n f [] = (n, f) ∷ []
put n f ((m, g) ∷ d) = if name_eq m n then (m, f) ∷ d else (m, g) ∷ put n f d

unfoldable pub drop_folder : Name → Disk → Disk
unfolding name_eq
drop_folder n [] = []
drop_folder n ((m, g) ∷ d) =
    let rest = drop_folder n d in if name_eq m n then rest else (m, g) ∷ rest

-- What one call changes on the disk. The calls on a folder that is not there fail; `apply` leaves
-- the disk as it is.
pub data Act : Type 0 where
  make_folder : Name → Act
  write_media : Name → Bytes → Act
  write_metadata : Name → Bytes → Act
  write_manifest : Name → Json → Act
  rename : Name → Name → Act
  unlink_media : Name → Act
  unlink_metadata : Name → Act
  unlink_manifest : Name → Act
  remove_folder : Name → Act

pub change : Name → (Folder → Folder) → Disk → Disk
change n g d = elim (find n d) [ none ↦ d | some f ↦ put n (g f) d ]

pub move : Name → Name → Disk → Disk
move n m d = elim (find n d) [ none ↦ d | some f ↦ put m f (drop_folder n d) ]

unfoldable pub apply : Act → Disk → Disk
unfolding change move find put drop_folder
apply (make_folder n) d = put n empty_folder d
apply (write_media n bytes) d = change n (λ f. record f { media = some bytes }) d
apply (write_metadata n bytes) d = change n (λ f. record f { metadata = some bytes }) d
apply (write_manifest n m) d = change n (λ f. record f { manifest = some m }) d
apply (rename n m) d = move n m d
apply (unlink_media n) d = change n (λ f. record f { media = none }) d
apply (unlink_metadata n) d = change n (λ f. record f { metadata = none }) d
apply (unlink_manifest n) d = change n (λ f. record f { manifest = none }) d
apply (remove_folder n) d = drop_folder n d

unfoldable pub apply_all : List Act → Disk → Disk
unfolding apply
apply_all [] d = d
apply_all (a ∷ acts) d = apply_all acts (apply a d)
