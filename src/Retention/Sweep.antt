-- ===== src/Retention/Sweep.antt =====
-- storage.py, `WebDAVStorageBackend.retention`: `delete_record`, and the loop that the three passes
-- by size share. Instants are numbers. `accepts` says which recordings the server deletes; where it
-- refuses, the exception ends the whole run (`none`).
pub mod Deleted
pub mod Prefix
use text.Mathlib.Text.{◌==◌ as str_eq}
use camvault.Prelude.{
  ℕ, ◌+◌, String, List, [], ◌∷◌, Bool, true, false, ◌&&◌, ◌||◌, Option, none, some, if◌then◌else◌,
}

pub record Recording : Type 0 where
  pub camera_id : String
  pub relative_path : String
  pub start : ℕ
  pub size_bytes : ℕ

pub record Deletions : Type 0 where
  pub paths : List (String × String)
  pub files : ℕ
  pub bytes : ℕ

infixl 5 ◌>>=◌
abbrev pub ◌>>=◌ {ℓ κ} : {A : Type ℓ} {B : Type κ} → Option A → (A → Option B) → Option B
none >>= f = none
some a >>= f = f a

unfoldable pub is_deleted : Recording → List (String × String) → Bool
is_deleted r [] = false
is_deleted r ((camera, path) ∷ paths) =
    (str_eq camera r.camera_id && str_eq path r.relative_path) || is_deleted r paths

-- A path that was deleted already is passed over.
unfoldable pub delete_record : (Recording → Bool) → Deletions → Recording → Option Deletions
unfolding is_deleted
delete_record accepts d r =
    if is_deleted r d.paths
    then some d
    else if accepts r
    then some (record {
      paths = (r.camera_id, r.relative_path) ∷ d.paths;
      files = d.files + 1;
      bytes = d.bytes + r.size_bytes;
    })
    else none

module _ (S : Type 0) where
  pub record Swept : Type 0 where
    pub state : S
    pub deletions : Deletions
    pub kept : List Recording

module _ {S : Type 0} (accepts : Recording → Bool) (wants : S → Bool)
    (step : S → Recording → S) where
  keep : Recording → Swept S → Option (Swept S)
  keep r w = some (record w { kept = r ∷ w.kept })

  -- `for record in retained: if …: delete, else: keep`.
  unfoldable pub sweep : S → Deletions → List Recording → Option (Swept S)
  unfolding keep
  sweep s d [] = some (record { state = s; deletions = d; kept = [] })
  sweep s d (r ∷ rs) =
      let kept = sweep s d rs >>= keep r in
      if wants s then delete_record accepts d r >>= (λ d'. sweep (step s r) d' rs) else kept
