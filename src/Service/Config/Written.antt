-- ===== src/Service/Config/Written.antt =====
-- What a write of the configuration leaves, when it returns, and what comes of a stale one.
use camvault.Prelude.{
  ℕ, ◌≡◌, ◌≢◌, refl, subst, sym, ap, [], true, inl, inr, Option, none, ◌∙◌, some, arith, text_eq→eq,
  Bool-cases, text_eq,
}
use camvault.Crypto.Bytes.{Bytes}
use camvault.Read.Range.{Text}
use camvault.Service.Config.{
  ConfigStore, Snapshot, Refusal, has_changed, Result, ok, err, Node, Files, read, validate,
  config_path, backup_path, Fault, no_temporary, write_fails, chmod_fails, replace_fails,
  atomic_replace, Faults, write, update, compared, validated, loaded, swapped, mode_of, backed_up,
  snapshot_of,
}

-- The configuration is the written one, with the mode it had; the backup is the configuration from
-- before, and no temporary file is left over.
pub record Written (s : ConfigStore) (content : Bytes) (expected : Option Text) (f g : Files)
    (r : Snapshot) : Type 0 where
  pub old : Node
  pub was : f.config ≡ some old
  pub agreed : expected ≡ some (s.revision old.bytes)
  pub config : g.config ≡ some (record { bytes = content; mode = old.mode })
  pub backup : g.backup ≡ some old
  pub temporaries : g.temporaries ≡ f.temporaries
  pub read_back : read s g ≡ ok r
  pub content_lem : r.content ≡ content
  pub revision_lem : r.revision ≡ s.revision content

module _ (s : ConfigStore) (content : Bytes) where
  swapped_ok :
      (mode : ℕ) (fault : Option Fault) (f g : Files) (r : Snapshot)
      → swapped s content (atomic_replace config_path content mode fault f) ≡ (ok r, g)
      → (g ≡ record f { config = some (record { bytes = content; mode = mode }) })
        × (r ≡ snapshot_of s content)
  unfolding atomic_replace
  swapped_ok mode none f g r h = (cc, cc)
  swapped_ok mode (some no_temporary) f g r h = (cc, cc)
  swapped_ok mode (some (write_fails cut cleans)) f g r h = (cc, cc)
  swapped_ok mode (some (chmod_fails cleans)) f g r h = (cc, cc)
  swapped_ok mode (some (replace_fails cleans)) f g r h = (cc, cc)

  abbrev Both : Bytes → ℕ → Files → Files → Type 0
  Both old mode f g = g ≡ record f {
    config = some (record { bytes = content; mode = mode });
    backup = some (record { bytes = old; mode = mode });
  }

  backed_up_ok :
      (old : Bytes) (mode : ℕ) (fault fault' : Option Fault) (f g : Files) (r : Snapshot)
      → backed_up s content mode fault' (atomic_replace backup_path old mode fault f) ≡ (ok r, g)
      → Both old mode f g × (r ≡ snapshot_of s content)
  unfolding atomic_replace
  backed_up_ok old mode none fault' f g r h =
      unfold atomic_replace in
      swapped_ok mode fault' (record f { backup = some (record { bytes = old; mode = mode }) }) g r
        h
  backed_up_ok old mode (some no_temporary) fault' f g r h = (cc, cc)
  backed_up_ok old mode (some (write_fails cut cleans)) fault' f g r h = (cc, cc)
  backed_up_ok old mode (some (chmod_fails cleans)) fault' f g r h = (cc, cc)
  backed_up_ok old mode (some (replace_fails cleans)) fault' f g r h = (cc, cc)

  pub loaded_ok :
      (config : Option Node) (current : Snapshot)
      → loaded s config ≡ ok current
      → (old : Node) × (config ≡ some old) × (current ≡ snapshot_of s old.bytes)
  loaded_ok none current h = (record { bytes = []; mode = 0 }, cc, cc)
  loaded_ok (some old) current h = (old, refl, ground arith)

  compared_ok :
      (expected : Option Text) (l : Result Snapshot) (faults : Faults) (f g : Files) (r : Snapshot)
      → compared s content expected l faults f ≡ (ok r, g)
      → (current : Snapshot) × (l ≡ ok current)
        × (expected ≡ some current.revision)
        × (update s content current faults f ≡ (ok r, g))
  compared_ok expected (err e) faults f g r h = (r, cc, cc, cc)
  compared_ok none (ok current) faults f g r h = (current, refl, cc, cc)
  compared_ok (some expected) (ok current) faults f g r h =
      elim (Bool-cases (text_eq expected current.revision)) [
        | inl e ↦ (current, refl, ap some (text_eq→eq _ _ e), rw e at h)
        | inr e ↦
            let h' : ◌≡◌ {A = Result Snapshot × Files} (err has_changed, f) (ok r, g) = rw e at h in
            (current, cc, cc, cc)
      ]

  -- A text that is written is read back.
  read-written :
      (f : Files) (mode : ℕ)
      → validate s content ≡ none
      → s.is_utf8 content ≡ true
      → f.config ≡ some (record { bytes = content; mode = mode })
      → read s f ≡ ok (snapshot_of s content)
  unfolding read validate
  read-written f mode valid utf8 e = rw e (ground arith)

  updated_ok :
      (old : Node) (faults : Faults) (f g : Files) (r : Snapshot)
      → f.config ≡ some old
      → update s content (snapshot_of s old.bytes) faults f ≡ (ok r, g)
      → Both old.bytes old.mode f g × (r ≡ snapshot_of s content)
  unfolding update
  updated_ok old faults f g r e h =
      backed_up_ok old.bytes old.mode faults.backup_fault faults.config_fault f g r (
        subst
          (λ (c : Option Node).
            backed_up s content (mode_of c) faults.config_fault
              (atomic_replace backup_path old.bytes (mode_of c) faults.backup_fault f)
            ≡ (ok r, g))
          e h)

  validated_ok :
      (v : Option Refusal) (expected : Option Text) (faults : Faults) (f g : Files) (r : Snapshot)
      → validated s content expected v faults f ≡ (ok r, g)
      → (v ≡ none) × (compared s content expected (read s f) faults f ≡ (ok r, g))
  validated_ok none expected faults f g r h = (refl, h)
  validated_ok (some e) expected faults f g r h = (cc, cc)

  -- If a write of a text that can be decoded returns, then the expected revision was that of the old
  -- configuration, the text is in place with the old mode, the old configuration is the backup, no
  -- temporary file is left over, and a read gives the snapshot that was returned, of that text and its
  -- revision.
  pub write-Written :
      (expected : Option Text) (faults : Faults) (f g : Files) (r : Snapshot)
      → s.is_utf8 content ≡ true
      → write s content expected faults f ≡ (ok r, g)
      → Written s content expected f g r
  unfolding write read
  write-Written expected faults f g r utf8 h =
      let (valid, h₁) = validated_ok (validate s content) expected faults f g r h in
      let (current, l, agreed, h₂) = compared_ok expected (read s f) faults f g r h₁ in
      let (old, was, same) = loaded_ok f.config current l in
      let (both, made) = updated_ok old faults f g r was (rw same at h₂) in
      record {
        old = old;
        was = was;
        agreed = rw same at agreed;
        config = ap (λ (k : Files). k.config) both;
        backup = ap (λ (k : Files). k.backup) both;
        temporaries = ap (λ (k : Files). k.temporaries) both;
        read_back =
            read-written g old.mode valid utf8 (ap (λ (k : Files). k.config) both)
            ∙ ap ok (sym made);
        content_lem = ap (λ (c : Snapshot). c.content) made;
        revision_lem = ap (λ (c : Snapshot). c.revision) made;
      }

  -- After a write that returned, and whose text has another revision than the one it was based on, a
  -- second write based on that revision is refused with a conflict and changes nothing, where its text
  -- is valid.
  pub write_stale :
      (other : Bytes) (expected : Text) (faults faults' : Faults) (f g : Files) (r : Snapshot)
      → s.is_utf8 content ≡ true
      → write s content (some expected) faults f ≡ (ok r, g)
      → s.revision content ≢ expected
      → validate s other ≡ none
      → write s other (some expected) faults' g ≡ (err has_changed, g)
  unfolding write
  write_stale other expected faults faults' f g r utf8 h ne valid =
      let w = write-Written (some expected) faults f g r utf8 h in
      subst (λ v. validated s other (some expected) v faults' g ≡ (err has_changed, g)) (sym valid)
        (subst (λ l. compared s other (some expected) l faults' g ≡ (err has_changed, g))
          (sym w.read_back)
          (elim (Bool-cases (text_eq expected r.revision)) [
            | inl e ↦ absurd (ne (sym (text_eq→eq expected r.revision e ∙ w.revision_lem)))
            | inr e ↦ rw e refl
          ]))
