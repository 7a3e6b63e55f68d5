-- ===== src/Service/Examples.antt =====
-- A first browser session and its end, and two writes of a configuration.
use camvault.Prelude.{
  ℕ, String, ◌≡◌, ◌≢◌, refl, List, [], ◌∷◌, some, none, All, true, false, arith, eq_iff,
}
use camvault.Service.Config.{
  ConfigStore, Snapshot, has_changed, ok, err, Files, Faults, validate, write, write_stages,
}
use camvault.Service.Config.Written.{Written, write-Written, write_stale}
use camvault.Service.Config.Whole.{Whole, write-Whole}
use camvault.Service.Sessions.{create_session, valid_session, revoke}
use camvault.Service.Sessions.Held.{IsHeld, create_session-IsHeld, valid_session-revoke}

abbrev abc : String
abc = "abc"

named : abc ≢ ""
named e = ground (arith, eq_iff "abc" "")

create_session-IsHeld_example :
    IsHeld (create_session 5 12 "abc" [])
    × (valid_session 100 "abc" (create_session 5 12 "abc" [])
        ≡ (true, create_session 5 12 "abc" []))
create_session-IsHeld_example = create_session-IsHeld 5 12 100 "abc" [] tt named (omega arith)

created : IsHeld (create_session 5 12 "abc" [])
created = (create_session-IsHeld 5 12 100 "abc" [] tt named (omega arith)).0

valid_session-revoke_example :
    valid_session 100 "abc" (revoke "abc" (create_session 5 12 "abc" []))
    ≡ (false, revoke "abc" (create_session 5 12 "abc" []))
valid_session-revoke_example =
    valid_session-revoke 100 "abc" (create_session 5 12 "abc" []) created.distinct

-- The digest of a text is the text.
abbrev store : ConfigStore
store = record {
  max_bytes = 10;
  revision = λ bytes. bytes;
  is_utf8 = λ bytes. true;
  is_valid = λ bytes. true;
}

abbrev on_disk : Files
on_disk = record {
  config = some (record { bytes = 65 ∷ []; mode = 420 });
  backup = none;
  temporaries = [];
}

abbrev no_faults : Faults
no_faults = record { backup_fault = none; config_fault = none }

abbrev after_write : Files
after_write = record {
  config = some (record { bytes = 66 ∷ []; mode = 420 });
  backup = some (record { bytes = 65 ∷ []; mode = 420 });
  temporaries = [];
}

abbrev returned : Snapshot
returned = record { content = 66 ∷ []; revision = 66 ∷ [] }

wrote : write store (66 ∷ []) (some (65 ∷ [])) no_faults on_disk ≡ (ok returned, after_write)
unfolding write
wrote = refl

write-Written_example : Written store (66 ∷ []) (some (65 ∷ [])) on_disk after_write returned
write-Written_example =
    write-Written store (66 ∷ []) (some (65 ∷ [])) no_faults on_disk after_write returned refl wrote

write-Whole_example : All (Whole store (66 ∷ []) (record { bytes = 65 ∷ []; mode = 420 })) (
    (write store (66 ∷ []) (some (65 ∷ [])) no_faults on_disk).1
    ∷ write_stages (66 ∷ []) 0 1 on_disk)
write-Whole_example =
    write-Whole store (66 ∷ []) (record { bytes = 65 ∷ []; mode = 420 }) no_faults on_disk refl
      (some (65 ∷ [])) 0 1

other : ◌≢◌ {A = List ℕ} (66 ∷ []) (65 ∷ [])
other e = ground arith

accepted : validate store (67 ∷ []) ≡ none
unfolding validate
accepted = refl

write_stale_example :
    write store (67 ∷ []) (some (65 ∷ [])) no_faults after_write ≡ (err has_changed, after_write)
write_stale_example =
    write_stale store (66 ∷ []) (67 ∷ []) (65 ∷ []) no_faults no_faults on_disk after_write returned
      refl wrote other accepted
