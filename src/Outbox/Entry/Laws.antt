-- ===== src/Outbox/Entry/Laws.antt =====
-- What a directory that loads holds, and which directories load.
use camvault.Prelude.{
  ◌≤◌, ◌<◌, ◌≡◌, refl, sym, ap, ◌∙◌, List, Bool, true, false, Option, none, some, if◌then◌else◌,
  ltb, arith, Bool-cases, inl, inr, le→ltb, lt→ltb,
}
use camvault.Read.Range.{Text}
use camvault.Outbox.Paths.{Checked, refused, divided, safe, safe_recording_relative}
use camvault.Outbox.Disk.{Name, Folder, Json, Manifest}
use camvault.Outbox.Entry.{
  Entry, is_entry_id, is_camera_id, has_size, manifest_limit, Loaded, corrupt, uncaught, loaded,
  sized, checked, fields, from_json, load_entry,
}

unfoldable pub loaded_entry : Name → Json → Manifest → Entry
loaded_entry n json m = record { folder = n; manifest = m; json_size = json.size }

loaded_injective : (a b : Entry) → loaded a ≡ loaded b → a ≡ b
loaded_injective a b h = ground arith

not_corrupt {ℓ} : {A : Type ℓ} (e : Entry) → corrupt ≡ loaded e → A
not_corrupt e h = absurd (ground arith)

if_loaded :
    (b : Bool) (a e : Entry) → (if b then loaded a else corrupt) ≡ loaded e → (b ≡ true) × (a ≡ e)
if_loaded true a e h = (refl, ground arith)
if_loaded false a e h = not_corrupt e h

-- What a directory holds that loads as an entry.
abbrev pub Holds : Name → Folder → Entry → Type 0
Holds n f e =
    (json : Json) × (f.manifest ≡ some json)
    × (json.content ≡ some e.manifest)
    × (loaded_entry n json e.manifest ≡ e)

sized-Holds :
    (n : Name) (f : Folder) (json : Json) (m : Manifest) (e : Entry)
    → f.manifest ≡ some json
    → json.content ≡ some m
    → sized n f json m ≡ loaded e
    → Holds n f e
unfolding sized loaded_entry
sized-Holds n f json m e h c l =
    let e' = (if_loaded _ _ _ l).1 in
    (
      json,
      h,
      c ∙ ap (λ (x : Entry). some x.manifest) e',
      ap (λ (x : Entry). loaded_entry n json x.manifest) (sym e') ∙ e',
    )

checked-Holds :
    (n : Name) (f : Folder) (json : Json) (m : Manifest) (c : Checked) (e : Entry)
    → f.manifest ≡ some json
    → json.content ≡ some m
    → checked n f json m c ≡ loaded e
    → Holds n f e
unfolding checked
checked-Holds n f json m refused e h k l = not_corrupt e l
checked-Holds n f json m divided e h k l = absurd (ground arith)
checked-Holds n f json m (safe parts) e h k l = sized-Holds n f json m e h k l

fields-Holds :
    (n : Name) (f : Folder) (json : Json) (o : Option Manifest) (e : Entry)
    → f.manifest ≡ some json
    → json.content ≡ o
    → fields n f json o ≡ loaded e
    → Holds n f e
unfolding fields
fields-Holds n f json none e h k l = not_corrupt e l
fields-Holds n f json (some m) e h k l = elim (Bool-cases (is_camera_id m.camera_id)) [
  | inl good ↦ checked-Holds n f json m _ e h k (rw good at l)
  | inr bad ↦ not_corrupt e (rw bad at l)
]

from_json-Holds :
    (n : Name) (f : Folder) (o : Option Json) (e : Entry)
    → f.manifest ≡ o
    → from_json n f o ≡ loaded e
    → Holds n f e
unfolding from_json
from_json-Holds n f none e h l = not_corrupt e l
from_json-Holds n f (some json) e h l = elim (Bool-cases (ltb manifest_limit json.size)) [
  | inl large ↦ not_corrupt e (rw large at l)
  | inr fits ↦ fields-Holds n f json json.content e h refl (rw fits at l)
]

pub load_entry-Holds : (n : Name) (f : Folder) (e : Entry) → load_entry n f ≡ loaded e → Holds n f e
unfolding load_entry
load_entry-Holds n f e l = from_json-Holds n f f.manifest e refl l

-- A directory loads the same from another place.
abbrev pub relocate : Name → Loaded → Loaded
relocate n corrupt = corrupt
relocate n uncaught = uncaught
relocate n (loaded e) = loaded (record e { folder = n })

relocate_if :
    (b : Bool) (n : Name) (l r : Loaded)
    → r ≡ relocate n l
    → (if b then r else corrupt) ≡ relocate n (if b then l else corrupt)
relocate_if true n l r h = h
relocate_if false n l r h = refl

relocate-checked :
    (n m : Name) (f : Folder) (json : Json) (manifest : Manifest) (c : Checked)
    → checked m f json manifest c ≡ relocate m (checked n f json manifest c)
unfolding checked sized
relocate-checked n m f json manifest refused = refl
relocate-checked n m f json manifest divided = refl
relocate-checked n m f json manifest (safe parts) = relocate_if _ m _ _ refl

relocate-fields :
    (n m : Name) (f : Folder) (json : Json) (o : Option Manifest)
    → fields m f json o ≡ relocate m (fields n f json o)
unfolding fields
relocate-fields n m f json none = refl
relocate-fields n m f json (some manifest) =
    relocate_if (is_camera_id manifest.camera_id) m _ _ (relocate-checked n m f json manifest _)

relocate-from_json :
    (n m : Name) (f : Folder) (o : Option Json) → from_json m f o ≡ relocate m (from_json n f o)
unfolding from_json
relocate-from_json n m f none = refl
relocate-from_json n m f (some json) = elim (Bool-cases (ltb manifest_limit json.size)) [
  | inl large ↦ rw large
  | inr fits ↦ rw fits (relocate-fields n m f json json.content)
]

pub relocate-load_entry : (n m : Name) (f : Folder) → load_entry m f ≡ relocate m (load_entry n f)
unfolding load_entry
relocate-load_entry n m f = relocate-from_json n m f f.manifest

-- A directory whose three files fit together loads.
pub load_entry-whole :
    (n : Name) (f : Folder) (json : Json) (m : Manifest) (parts : List Text)
    → f.manifest ≡ some json
    → json.content ≡ some m
    → json.size ≤ manifest_limit
    → is_camera_id m.camera_id ≡ true
    → safe_recording_relative m.relative_path ≡ safe parts
    → is_entry_id m.media_hash ≡ true
    → is_entry_id m.metadata_hash ≡ true
    → has_size m.media_size f.media ≡ true
    → has_size m.metadata_size f.metadata ≡ true
    → 0 < m.plaintext_size
    → load_entry n f ≡ loaded (loaded_entry n json m)
unfolding load_entry from_json fields checked sized loaded_entry
load_entry-whole n f json m parts hf hc size camera path mh mdh ms mds ps = rw (
  hf,
  from_json,
  le→ltb manifest_limit json.size size,
  hc,
  fields,
  camera,
  path,
  checked,
  mh,
  mdh,
  ms,
  mds,
  lt→ltb 0 m.plaintext_size ps,
)

pub load_entry_folder :
    (n : Name) (f : Folder) (e : Entry) → load_entry n f ≡ loaded e → e.folder ≡ n
unfolding loaded_entry
load_entry_folder n f e l =
    let (json, there, content, same) = load_entry-Holds n f e l in
    ap (λ (x : Entry). x.folder) (sym same)
