-- ===== src/Outbox/World/Steps.antt =====
-- What each kind of step keeps.
use camvault.Prelude.{
  ℕ, zero, suc, ◌≡◌, refl, sym, ap, ◌∙◌, subst, List, ◌++◌, Bool, Option, none, some, arith,
}
use camvault.Read.Range.{Text}
use camvault.Outbox.Disk.{Folder, find, Act, apply_all}
use camvault.Outbox.Disk.Laws.{name_eq_refl}
use camvault.Outbox.Entry.{Entry, loaded, identifier}
use camvault.Outbox.Persist.{
  Setup, Prepared, Memory, present, uneven, write, plan, acts_of, interrupt, pending_name,
  write_files, commit, lookup, manifest_of,
}
use camvault.Outbox.Persist.Laws.{
  written_folder, find_all_written, find-apply_all-Apart, write_files-Apart,
}
use camvault.Outbox.Persist.Plans.{plan-Planned, plan-Facts, new_entry}
use camvault.Outbox.Persist.Effects.{
  Same, Grown, Effect, Planned-Effect, Same-Extends, Same-Honest, Grown-Extends, Grown-Honest,
}
use camvault.Outbox.Replay.{choose, removal, forget, block}
use camvault.Outbox.Open.Recovered.{Mapped}
use camvault.Outbox.World.{World, wrote, already, recording, id_of, tidied, accept, deliver}
use camvault.Outbox.World.Sound.{Sound}
use camvault.Outbox.World.Accepted.{accept-Sound, extend-Sound}
use camvault.Outbox.World.Delivered.{
  deliver-Sound, removal-Removed, Removed-Others, Removed-Honest, Removed-Mapped, forget-lookup,
}
use camvault.Outbox.World.Quiet.{
  Ready, Digests, written_loads, tidied-Same, Effect-Extends, Effect-Honest, no_memory, quiet-Sound,
  dead-Sound,
}

module _ (s : Setup) (w : World) (m : Memory) (sound : Sound s w)
    (running : w.memory ≡ some m) where
  pub written-Sound :
      (e : Entry) (acts : List Act) (free : ℕ) (p : Prepared) (acknowledge : Bool)
      → Digests s
      → Ready s p
      → plan s m w.disk free p ≡ write e acts
      → Sound s (accept s (wrote p) acknowledge e (apply_all acts w.disk) m w)
  unfolding new_entry manifest_of
  written-Sound e acts free p acknowledge digests ready planned =
      let (missing, entry, all, fits, media, metadata, spare) =
        plan-Facts s m w.disk free p _ planned in
      let i = id_of s p in
      let d = apply_all acts w.disk in
      let q : d ≡ apply_all (write_files i p ++ commit s i p) w.disk =
        ap (λ (x : List Act). apply_all x w.disk) all in
      let grown : Grown s i p w.disk d =
        (missing, λ j. ap (find (pending_name j)) q ∙ find_all_written s i j p w.disk) in
      let there : find (pending_name i) d ≡ some (written_folder s p) =
        grown.1 i ∙ rw (name_eq_refl (pending_name i)) in
      accept-Sound s w (wrote p) acknowledge e d m i (written_folder s p) sound running
        (Grown-Extends s i p w.disk d grown) (Grown-Honest s p w.disk d grown sound.honest) there
        (written_loads s p digests ready ∙ ap loaded (sym entry))
        (ap (λ (x : Entry). recording x.manifest (written_folder s p)) entry)

  pub found-Sound :
      (e : Entry) (free : ℕ) (p : Prepared) (acknowledge : Bool)
      → plan s m w.disk free p ≡ present e
      → Sound s (accept s (already p) acknowledge e w.disk m w)
  found-Sound e free p acknowledge planned =
      let (f, there, loads) = plan-Facts s m w.disk free p _ planned in
      accept-Sound s w (already p) acknowledge e w.disk m (id_of s p) f sound running (λ j g h. h)
        sound.honest there loads (sound.honest (id_of s p) f e there loads)

  pub missized-Sound :
      (acts : List Act) (free : ℕ) (p : Prepared)
      → plan s m w.disk free p ≡ uneven acts
      → Sound s (record w { disk = apply_all acts w.disk })
  missized-Sound acts free p planned =
      let all = plan-Facts s m w.disk free p _ planned in
      let same : Same w.disk (apply_all acts w.disk) = λ j.
        ap (λ (x : List Act). find (pending_name j) (apply_all x w.disk)) all
        ∙ find-apply_all-Apart (write_files (id_of s p) p) (pending_name j) w.disk
            (write_files-Apart (id_of s p) j p) in
      quiet-Sound s w _ sound (Same-Extends w.disk _ same)
        (Same-Honest s w.disk _ same sound.honest)

  interrupted :
      (free : ℕ) (p : Prepared) (k : ℕ) (cut : Option ℕ)
      → Effect s (id_of s p) p w.disk (interrupt k cut (acts_of (plan s m w.disk free p)) w.disk)
  interrupted free p k cut =
      Planned-Effect s m w.disk free (id_of s p) p _ k cut (plan-Planned s m w.disk free p)

  pub failed-Sound :
      (free : ℕ) (p : Prepared) (k j : ℕ) (cut : Option ℕ)
      → Sound s (record w {
        disk = tidied j (id_of s p) (interrupt k cut (acts_of (plan s m w.disk free p)) w.disk);
      })
  failed-Sound free p k j cut =
      let left = interrupt k cut (acts_of (plan s m w.disk free p)) w.disk in
      let effect = interrupted free p k cut in
      let same = tidied-Same j (id_of s p) left in
      quiet-Sound s w _ sound
        (λ i f h.
          Same-Extends left _ same i f (Effect-Extends s (id_of s p) p w.disk left effect i f h))
        (Same-Honest s left _ same (Effect-Honest s p w.disk left effect sound.honest))

  pub died_writing-Sound :
      (free : ℕ) (p : Prepared) (k : ℕ) (cut : Option ℕ)
      → Sound s (record w {
        disk = interrupt k cut (acts_of (plan s m w.disk free p)) w.disk;
        memory = none;
      })
  died_writing-Sound free p k cut =
      let effect = interrupted free p k cut in
      dead-Sound s w _ sound (Effect-Extends s (id_of s p) p w.disk _ effect)
        (Effect-Honest s p w.disk _ effect sound.honest)

  module _ (e : Entry) (f : Folder) (choice : choose m ≡ some e)
      (there : find e.folder w.disk ≡ some f) where
    pub uploaded-Sound :
        (k : ℕ)
        → Sound s (
            deliver s e f (record w {
              disk = interrupt (suc k) none (removal s e) w.disk;
              memory = some (forget s e m);
            }))
    unfolding deliver forget
    uploaded-Sound k =
        let i = identifier s.name_hash e in
        let d = interrupt (suc k) none (removal s e) w.disk in
        let mapped = sound.mapped m running in
        let removed = removal-Removed s w.disk m e f k choice mapped there in
        deliver-Sound s w _ m e f sound running choice there (Removed-Others i w.disk d removed)
          (Removed-Honest s i w.disk d removed sound.honest)
          (λ m' is.
            let q : forget s e m ≡ m' = ground arith in
            subst (λ (x : Memory). Mapped s d x.entries) q
              (Removed-Mapped s i w.disk d m.entries removed mapped))
          (λ m' is j x apart h.
            let q : forget s e m ≡ m' = ground arith in
            subst (λ (y : Memory). lookup j y.entries ≡ some x) q (forget-lookup s e m j x apart h))
          refl refl

    pub kept-Sound : Sound s (deliver s e f w)
    unfolding deliver
    kept-Sound =
        deliver-Sound s w _ m e f sound running choice there (λ j apart. refl) sound.honest
          sound.mapped
          (λ m' is j x apart h.
            let q : m ≡ m' = ground arith in
            subst (λ (y : Memory). lookup j y.entries ≡ some x) q h)
          refl refl

    pub died_uploading-Sound :
        (k : ℕ)
        → Sound s (
            deliver s e f
              (record w { disk = interrupt k none (removal s e) w.disk; memory = none }))
    unfolding deliver interrupt removal
    died_uploading-Sound zero =
        deliver-Sound s w _ m e f sound running choice there (λ j apart. refl) sound.honest
          (λ m' is. no_memory m' is) (λ m' is j x apart h. no_memory m' is) refl refl
    died_uploading-Sound (suc k) =
        let i = identifier s.name_hash e in
        let d = interrupt (suc k) none (removal s e) w.disk in
        let removed = removal-Removed s w.disk m e f k choice (sound.mapped m running) there in
        deliver-Sound s w _ m e f sound running choice there (Removed-Others i w.disk d removed)
          (Removed-Honest s i w.disk d removed sound.honest) (λ m' is. no_memory m' is)
          (λ m' is j x apart h. no_memory m' is) refl refl

    pub blocked-Sound : Sound s (record w { memory = some (block s e m) })
    unfolding block
    blocked-Sound =
        extend-Sound s w _ sound (λ j g h. h) sound.honest
          (λ m' is. (
            m,
            running,
            let q : block s e m ≡ m' = ground arith in
                subst
                  (λ (y : Memory).
                    (j : Text) (x : Entry)
                    → lookup j m.entries ≡ some x
                    → lookup j y.entries ≡ some x)
                  q (λ j x h. h),
          ))
          (λ m' is.
            let q : block s e m ≡ m' = ground arith in
            subst (λ (y : Memory). Mapped s w.disk y.entries) q (sound.mapped m running))
          refl refl
