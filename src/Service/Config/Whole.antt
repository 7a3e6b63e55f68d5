-- ===== src/Service/Config/Whole.antt =====
-- What a write of the configuration leaves when it fails or is cut off.
use camvault.Prelude.{
  ℕ, ◌≡◌, refl, subst, sym, ap, ◌∷◌, true, false, ◌⊎◌, inl, inr, Option, none, ◌∙◌, some, All,
  if◌then◌else◌, text_eq,
}
use camvault.Crypto.Bytes.{Bytes}
use camvault.Read.Range.{Text}
use camvault.Service.Config.{
  ConfigStore, Snapshot, Refusal, has_changed, Result, ok, err, Node, Files, read, validate,
  config_path, backup_path, Fault, no_temporary, write_fails, chmod_fails, replace_fails,
  atomic_replace, Faults, write, update, compared, validated, swapped, mode_of, write_stages,
  stages_of, backed_up,
}
use camvault.Service.Config.Written.{loaded_ok}

module _ (s : ConfigStore) (content : Bytes) where
  -- The configuration is the old one, or the new one with the old one as its backup.
  abbrev pub Whole : Node → Files → Type 0
  Whole old g =
      (g.config ≡ some old)
      ⊎ ((g.config ≡ some (record { bytes = content; mode = old.mode })) × (g.backup ≡ some old))

  swapped-Whole :
      (old : Node) (fault : Option Fault) (f : Files)
      → f.config ≡ some old
      → f.backup ≡ some old
      → Whole old (swapped s content (atomic_replace config_path content old.mode fault f)).1
  unfolding atomic_replace
  swapped-Whole old none f e h = inr (refl, h)
  swapped-Whole old (some no_temporary) f e h = inl e
  swapped-Whole old (some (write_fails cut true)) f e h = inl e
  swapped-Whole old (some (write_fails cut false)) f e h = inl e
  swapped-Whole old (some (chmod_fails true)) f e h = inl e
  swapped-Whole old (some (chmod_fails false)) f e h = inl e
  swapped-Whole old (some (replace_fails true)) f e h = inl e
  swapped-Whole old (some (replace_fails false)) f e h = inl e

  backed_up-Whole :
      (old : Node) (fault fault' : Option Fault) (f : Files)
      → f.config ≡ some old
      → Whole old
          (backed_up s content old.mode fault'
            (atomic_replace backup_path old.bytes old.mode fault f)).1
  unfolding atomic_replace
  backed_up-Whole old none fault' f e =
      unfold atomic_replace in swapped-Whole old fault' (record f { backup = some old }) e refl
  backed_up-Whole old (some no_temporary) fault' f e = inl e
  backed_up-Whole old (some (write_fails cut true)) fault' f e = inl e
  backed_up-Whole old (some (write_fails cut false)) fault' f e = inl e
  backed_up-Whole old (some (chmod_fails true)) fault' f e = inl e
  backed_up-Whole old (some (chmod_fails false)) fault' f e = inl e
  backed_up-Whole old (some (replace_fails true)) fault' f e = inl e
  backed_up-Whole old (some (replace_fails false)) fault' f e = inl e

  write_stages-Whole :
      (old : Node) (cut cut' : ℕ) (f : Files)
      → f.config ≡ some old
      → All (Whole old) (write_stages content cut cut' f)
  unfolding write_stages
  write_stages-Whole old cut cut' f e =
      subst (λ (c : Option Node). All (Whole old) (stages_of content c cut cut' f)) (sym e)
        (
          inl e,
          (
            inl e,
            (
              inl e,
              (inl e, (inl e, (inl e, (inl e, (inl e, (inl e, (inl e, (inr (refl, refl), tt)))))))),
            ),
          ),
        )

  module _ (old : Node) (faults : Faults) (f : Files) (was : f.config ≡ some old) where
    update-Whole :
        (current : Snapshot)
        → current.content ≡ old.bytes
        → Whole old (update s content current faults f).1
    unfolding update
    update-Whole current same =
        subst
          (λ (c : Option Node).
            Whole old
              (backed_up s content (mode_of c) faults.config_fault
                (atomic_replace backup_path current.content (mode_of c) faults.backup_fault f)).1)
          (sym was)
          (subst
            (λ (bytes : Bytes).
              Whole old
                (backed_up s content old.mode faults.config_fault
                  (atomic_replace backup_path bytes old.mode faults.backup_fault f)).1)
            (sym same) (backed_up-Whole old faults.backup_fault faults.config_fault f was))

    compared-Whole :
        (expected : Option Text) (l : Result Snapshot)
        → ((current : Snapshot) → l ≡ ok current → current.content ≡ old.bytes)
        → Whole old (compared s content expected l faults f).1
    compared-Whole expected (err e) k = inl was
    compared-Whole none (ok current) k = inl was
    compared-Whole (some expected) (ok current) k =
        elim (text_eq expected current.revision)
          as (λ t.
            Whole old (if t then update s content current faults f else (err has_changed, f)).1) [
              | true ↦ update-Whole current (k current refl)
              | false ↦ inl was
            ]

    read_old : (current : Snapshot) → read s f ≡ ok current → current.content ≡ old.bytes
    unfolding read
    read_old current e =
        let (old', was', same) = loaded_ok s content f.config current e in
        let agrees : old' ≡ old = cc in
        ap (λ (c : Snapshot). c.content) same ∙ ap (λ (n : Node). n.bytes) agrees

    validated-Whole :
        (v : Option Refusal) (expected : Option Text)
        → Whole old (validated s content expected v faults f).1
    validated-Whole none expected = compared-Whole expected (read s f) read_old
    validated-Whole (some e) expected = inl was

    -- However a write ends, and after each call of one that is cut off, the configuration is the old one,
    -- or the new text with the old mode and with the old configuration as its backup.
    pub write-Whole :
        (expected : Option Text) (cut cut' : ℕ)
        → All (Whole old) ((write s content expected faults f).1 ∷ write_stages content cut cut' f)
    unfolding write
    write-Whole expected cut cut' =
        (validated-Whole (validate s content) expected, write_stages-Whole old cut cut' f was)
