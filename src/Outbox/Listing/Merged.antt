-- ===== src/Outbox/Listing/Merged.antt =====
-- The merged dictionary holds each local record's place.
use camvault.Prelude.{
  ◌*◌, ◌≡◌, refl, sym, ap, ◌∙◌, subst, List, [], ◌∷◌, Bool, true, false, ◌&&◌, Option, none, some,
  ◌==◌, arith, All, text_eq, text_eq_refl, text_eq→eq, Bool-cases, inl, inr, ◌⊎◌,
}
use camvault.Read.Range.{Text}
use camvault.Archive.Names.{ParsedName, Parsed, parsed, not_a_name, division_by_zero, parse_name}
use camvault.Outbox.Paths.{split, path_parts, last_of}
use camvault.Outbox.Disk.{Manifest}
use camvault.Outbox.Entry.{Entry}
use camvault.Outbox.Listing.{
  Listed, from_parsed, record_of, set_record, update_records, also_record, local_records,
}
use camvault.Outbox.Listing.Shown.{any}

-- The same path, start and duration.
abbrev pub same_place : Listed → Listed → Bool
same_place r x =
    text_eq x.relative_path r.relative_path && ((x.start == r.start) && (x.duration == r.duration))

abbrev pub Occurs : Listed → List Listed → Type 0
Occurs r [] = ⊥
Occurs r (x ∷ xs) = (x ≡ r) ⊎ Occurs r xs

-- The times of a record are those of its name.
abbrev pub Timed : Listed → Type 0
Timed r =
    (p : ParsedName) × (parse_name (last_of (path_parts (split r.relative_path))) ≡ parsed p)
    × (r.start ≡ 1000 * p.start)
    × (r.duration ≡ p.duration)

-- An entry of another camera, or one whose record is among the local ones.
abbrev pub Recorded : Text → List Listed → Text × Entry → Type 0
Recorded camera local x =
    (text_eq x.1.manifest.camera_id camera ≡ false)
    ⊎ ((r : Listed) × (record_of x.1 ≡ some r) × Occurs r local)

same_place_refl : (r : Listed) → same_place r r ≡ true
same_place_refl r = ground (arith, text_eq_refl r.relative_path)

parsed_injective : (p q : ParsedName) → parsed p ≡ parsed q → p ≡ q
parsed_injective p q h = ground arith

Timed-same_place :
    (r y : Listed) → Timed r → Timed y → y.relative_path ≡ r.relative_path → same_place r y ≡ true
Timed-same_place r y (p, parses, start, duration) (q, parses', start', duration') same =
    let one : q ≡ p =
      parsed_injective q p
        (sym parses' ∙ ap (λ x. parse_name (last_of (path_parts (split x)))) same ∙ parses) in
    let a : y.start ≡ r.start = start' ∙ ap (λ (x : ParsedName). 1000 * x.start) one ∙ sym start in
    let b : y.duration ≡ r.duration =
      duration' ∙ ap (λ (x : ParsedName). x.duration) one ∙ sym duration in
    let c : text_eq y.relative_path r.relative_path ≡ true =
      subst (λ x. text_eq x r.relative_path ≡ true) (sym same) (text_eq_refl r.relative_path) in
    ground (arith, a, b, c)

any-set_record_new : (r : Listed) (rs : List Listed) → any (same_place r) (set_record r rs) ≡ true
unfolding set_record
any-set_record_new r [] = rw (same_place_refl r)
any-set_record_new r (x ∷ xs) = elim (Bool-cases (text_eq x.relative_path r.relative_path)) [
  | inl here ↦ rw here (rw (same_place_refl r))
  | inr away ↦ rw away (rw away (any-set_record_new r xs))
]

any-set_record_old :
    (r y : Listed) (rs : List Listed)
    → Timed r
    → Timed y
    → any (same_place r) rs ≡ true
    → any (same_place r) (set_record y rs) ≡ true
unfolding set_record
any-set_record_old r y [] tr ty h = absurd (ground arith)
any-set_record_old r y (x ∷ xs) tr ty h =
    elim (Bool-cases (text_eq x.relative_path y.relative_path)) [
      | inl here ↦ rw here (elim (Bool-cases (same_place r x)) [
        | inl there ↦
            let place : text_eq x.relative_path r.relative_path ≡ true = ground arith in
            let path : y.relative_path ≡ r.relative_path =
              sym (text_eq→eq x.relative_path y.relative_path here)
              ∙ text_eq→eq x.relative_path r.relative_path place in
            rw (Timed-same_place r y tr ty path)
        | inr other ↦ elim (Bool-cases (same_place r y)) [
          | inl yes_same ↦ rw yes_same
          | inr not_same ↦ rw (not_same, rw other at h)
        ]
      ])
      | inr away ↦ rw away (elim (Bool-cases (same_place r x)) [
        | inl there ↦ rw there
        | inr other ↦ rw other (any-set_record_old r y xs tr ty (rw other at h))
      ])
    ]

any-update_records_old :
    (r : Listed) (rs xs : List Listed)
    → Timed r
    → All Timed xs
    → any (same_place r) rs ≡ true
    → any (same_place r) (update_records rs xs) ≡ true
unfolding update_records
any-update_records_old r rs [] tr txs h = h
any-update_records_old r rs (x ∷ xs) tr txs h =
    any-update_records_old r (set_record x rs) xs tr txs.1 (any-set_record_old r x rs tr txs.0 h)

pub any-update_records_new :
    (r : Listed) (rs xs : List Listed)
    → All Timed xs
    → Occurs r xs
    → any (same_place r) (update_records rs xs) ≡ true
unfolding update_records
any-update_records_new r rs [] txs nowhere = elim nowhere [ ]
any-update_records_new r rs (x ∷ xs) txs (inl here) =
    any-update_records_old r (set_record x rs) xs (subst Timed here txs.0) txs.1 (
      subst (λ (y : Listed). any (same_place r) (set_record y rs) ≡ true) (sym here)
        (any-set_record_new r rs))
any-update_records_new r rs (x ∷ xs) txs (inr there) =
    any-update_records_new r (set_record x rs) xs txs.1 there

some_injective : (a b : Listed) → some a ≡ some b → a ≡ b
some_injective a b h = ground arith

made : Manifest → ParsedName → Listed
made m p = record {
  camera_id = m.camera_id;
  relative_path = m.relative_path;
  start = 1000 * p.start;
  duration = p.duration;
  size_bytes = m.plaintext_size;
  stream_id = p.stream_id;
  audio_index = p.audio_index;
  encrypted = p.encrypted;
}

from_parsed-Timed :
    (m : Manifest) (x : Parsed) (r : Listed)
    → parse_name (last_of (path_parts (split m.relative_path))) ≡ x
    → from_parsed m x ≡ some r
    → Timed r
unfolding from_parsed made
from_parsed-Timed m not_a_name r h k = absurd (ground arith)
from_parsed-Timed m division_by_zero r h k = absurd (ground arith)
from_parsed-Timed m (parsed p) r h k =
    let q : made m p ≡ r = some_injective (made m p) r k in subst Timed q (p, h, refl, refl)

record_of-Timed : (e : Entry) (r : Listed) → record_of e ≡ some r → Timed r
unfolding record_of
record_of-Timed e r h = from_parsed-Timed e.manifest _ r refl h

also_record-some :
    (o : Option Listed) (others : Option (List Listed)) (local : List Listed)
    → also_record o others ≡ some local
    → (r : Listed) × (rs : List Listed) × (o ≡ some r) × (others ≡ some rs) × (r ∷ rs ≡ local)
unfolding also_record
also_record-some none others local h = absurd (ground arith)
also_record-some (some r) none local h = absurd (ground arith)
also_record-some (some r) (some rs) local h = (r, rs, refl, refl, ground arith)

pub local_records-Timed :
    (camera : Text) (es : List (Text × Entry)) (local : List Listed)
    → local_records camera es ≡ some local
    → All Timed local
unfolding local_records
local_records-Timed camera [] local h = let q : [] ≡ local = ground arith in subst (All Timed) q tt
local_records-Timed camera ((key, e) ∷ es) local h =
    elim (Bool-cases (text_eq e.manifest.camera_id camera)) [
      | inl ours ↦
          let (r, rs, one, others, same) =
            also_record-some (record_of e) (local_records camera es) local (rw ours at h) in
          subst (All Timed) same (record_of-Timed e r one, local_records-Timed camera es rs others)
      | inr other ↦ local_records-Timed camera es local (rw other at h)
    ]

All-Recorded_weaken :
    (camera : Text) (r : Listed) (local : List Listed) (es : List (Text × Entry))
    → All (Recorded camera local) es
    → All (Recorded camera (r ∷ local)) es
All-Recorded_weaken camera r local [] h = tt
All-Recorded_weaken camera r local (x ∷ es) (inl other, h) =
    (inl other, All-Recorded_weaken camera r local es h)
All-Recorded_weaken camera r local (x ∷ es) (inr (q, is, there), h) =
    (inr (q, is, inr there), All-Recorded_weaken camera r local es h)

-- Each entry of the camera has its record among the local ones.
pub local_records-Recorded :
    (camera : Text) (es : List (Text × Entry)) (local : List Listed)
    → local_records camera es ≡ some local
    → All (Recorded camera local) es
unfolding local_records
local_records-Recorded camera [] local h = tt
local_records-Recorded camera ((key, e) ∷ es) local h =
    elim (Bool-cases (text_eq e.manifest.camera_id camera)) [
      | inl ours ↦
          let (r, rs, one, others, same) =
            also_record-some (record_of e) (local_records camera es) local (rw ours at h) in
          subst (λ (l : List Listed). All (Recorded camera l) ((key, e) ∷ es)) same
            (
              inr (r, one, inl refl),
              All-Recorded_weaken camera r rs es (local_records-Recorded camera es rs others),
            )
      | inr other ↦ (inl other, local_records-Recorded camera es local (rw other at h))
    ]
