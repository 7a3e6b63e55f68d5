-- ===== src/Outbox/World/Accepted.antt =====
-- The invariant after a batch is accepted, and after a step that keeps every entry's directory.
use camvault.Prelude.{
  ◌≡◌, refl, sym, ap, ◌∙◌, subst, [], ◌∷◌, ◌++◌, Bool, true, false, some, if◌then◌else◌, arith, All,
  inl, inr,
}
use camvault.Read.Range.{Text}
use camvault.Outbox.Disk.{Folder, Disk, find}
use camvault.Outbox.Entry.{Entry, loaded, load_entry, identifier}
use camvault.Outbox.Persist.{Setup, Memory, pending_name, lookup, register}
use camvault.Outbox.Persist.Effects.{Extends, Honest}
use camvault.Outbox.Open.Recovered.{Placed, Mapped, Mapped-Extends}
use camvault.Outbox.World.{Recording, Receipt, recording, World, accept}
use camvault.Outbox.World.Sound.{
  Sound, Kept, Held-Extends, Remembers, Honoured, RecordingOf, Honoured-map, register-Registered,
  In,
}

Kept-Extends :
    (s : Setup) (w after : World) (r : Recording)
    → Extends w.disk after.disk
    → Remembers w.memory after.memory
    → w.remote ≡ after.remote
    → Kept s w r
    → Kept s after r
Kept-Extends s w after r ext remembers same (inl delivered) = inl (subst (In r) same delivered)
Kept-Extends s w after r ext remembers same (inr held) =
    inr (Held-Extends s w.disk after.disk w.memory after.memory r ext remembers held)

-- A step that adds nothing to what is acknowledged or with the remote.
pub extend-Sound :
    (s : Setup) (w after : World)
    → Sound s w
    → Extends w.disk after.disk
    → Honest s after.disk
    → Remembers w.memory after.memory
    → ((m : Memory) → after.memory ≡ some m → Mapped s after.disk m.entries)
    → w.remote ≡ after.remote
    → w.acknowledged ≡ after.acknowledged
    → Sound s after
extend-Sound s w after sound ext honest remembers mapped remote acknowledged = record {
  honest = honest;
  mapped = mapped;
  kept = subst (All (Honoured s after)) acknowledged (
      Honoured-map s w after w.acknowledged (λ r k. Kept-Extends s w after r ext remembers remote k)
        sound.kept);
}

pub accept-Sound :
    (s : Setup) (w : World) (receipt : Receipt) (acknowledge : Bool) (e : Entry) (d : Disk)
    (m : Memory) (i : Text) (f : Folder)
    → Sound s w
    → w.memory ≡ some m
    → Extends w.disk d
    → Honest s d
    → find (pending_name i) d ≡ some f
    → load_entry (pending_name i) f ≡ loaded e
    → RecordingOf s receipt (recording e.manifest f)
    → Sound s (accept s receipt acknowledge e d m w)
unfolding accept
accept-Sound s w receipt acknowledge e d m i f sound is ext honest there loads tied =
    let id = honest i f e there loads in
    let placed : Placed s d (identifier s.name_hash e, e) =
      subst (λ (x : Text). Placed s d (x, e)) (sym id) (f, there, loads, id) in
    let r =
      register-Registered s d e m placed
        (Mapped-Extends s w.disk d m.entries ext (sound.mapped m is)) in
    let after = accept s receipt acknowledge e d m w in
    let remembers : Remembers w.memory after.memory = λ m' now. (
      m,
      is,
      let q : register s e m ≡ m' = ground arith in
          subst
            (λ (x : Memory).
              (j : Text) (old : Entry)
              → lookup j m.entries ≡ some old
              → lookup j x.entries ≡ some old)
            q r.keeps,
    ) in
    let old =
      Honoured-map s w after w.acknowledged (λ x k. Kept-Extends s w after x ext remembers refl k)
        sound.kept in
    let there' : find (pending_name (identifier s.name_hash e)) d ≡ some f =
      ap (λ (x : Text). find (pending_name x) d) id ∙ there in
    let loads' : load_entry (pending_name (identifier s.name_hash e)) f ≡ loaded e =
      subst (λ (x : Text). load_entry (pending_name x) f ≡ loaded e) (sym id) loads in
    let new : Kept s after (recording e.manifest f) = inr (
      f,
      e,
      there',
      loads',
      refl,
      λ m' now.
          let q : register s e m ≡ m' = ground arith in
          subst (λ (x : Memory). lookup (identifier s.name_hash e) x.entries ≡ some e) q r.there,
    ) in
    record {
      honest = honest;
      mapped = λ m' now.
          let q : register s e m ≡ m' = ground arith in
          subst (λ (x : Memory). Mapped s d x.entries) q r.mapped;
      kept =
          elim acknowledge
            as (λ b. All (Honoured s after) ((if b then receipt ∷ [] else []) ++ w.acknowledged)) [
              | true ↦ ((recording e.manifest f, tied, new), old)
              | false ↦ old
            ];
    }
