-- ===== src/Tests/Locality.antt =====
-- The location metadata over two files in memory, beside the policy.
use mathlib.Core.Option.{some-injective}
use system_settings.LocationMetadata.Defs.{
  MetadataFile, committed, pending, Metadata, KeyRead, loaded, no_entry, key_file_error,
  MetadataSystem, metadata_load, metadata_save, finish_staged, metadata_of_keys, metadata_valid,
}
use system_settings.LocationMetadata.Files.{LawfulFiles}
use system_settings.LocationMetadata.Outcome.{Finished, finish_staged-Finished}
use system_settings.LocationMetadata.Recovered.{Recovered, recover_with-Recovered}
use system_settings.LocationMetadata.Recovery.{recover_with, recover, coordinate_close}
use system_settings.LocationMetadata.RoundTrip.{Saved, metadata_save-Saved}
use system_settings.Policy.{Policy}
use system_settings.Prelude.{
  ℕ, not, [], ◌∷◌, ap, sym, ◌∙◌, Bool, true, false, Option, none, some, Bytes, codes, ◌≡◌, refl,
  arith,
}
use system_settings.Tests.Memory.{degrees, defaults}

-- The contents of the two files, the policy, and whether the lock is taken.
pub record Disk : Type 0 where
  pub current : Option Bytes
  pub journal : Option Bytes
  pub chosen : Policy ℕ
  pub taken : Bool
  pub stored : Bool
  pub policy_locks : ℕ

-- The text of a place without country or timezone: its degrees and its name.
abbrev text_of : Option Bytes → Option Bytes → Option Bytes → Option ℕ → Option ℕ → Option Bytes
text_of (some name) (some []) (some []) (some latitude) (some longitude) =
    some (latitude ∷ longitude ∷ name)
text_of _ _ _ _ _ = none

abbrev pub keys_in : Option Bytes → KeyRead ℕ
keys_in none = no_entry
keys_in (some (latitude ∷ longitude ∷ name)) = loaded (record {
  name = some name;
  country = some [];
  timezone = some [];
  latitude = some latitude;
  longitude = some longitude;
})
keys_in (some _) = key_file_error

abbrev pub file_in : MetadataFile → Disk → Option Bytes
file_in committed w = w.current
file_in pending w = w.journal

abbrev pub put : MetadataFile → Option Bytes → Disk → Disk
put committed text w = record w { current = text }
put pending text w = record w { journal = text }

abbrev pub disk : MetadataSystem ℕ Disk
disk = record {
  utf8_valid = λ t. true;
  read_keys = λ file w. keys_in (file_in file w);
  to_data = λ k. text_of k.name k.country k.timezone k.latitude k.longitude;
  mkdir = λ w. (w, true);
  chmod = λ w. (w, true);
  write = λ file text w. (put file (some text) w, true);
  unlink = λ file w. (put file none w, true);
  lock = λ w. (record w { taken = true }, not w.taken);
  unlock = λ w. record w { taken = false };
}

abbrev pub chosen_in : Disk → Option (Policy ℕ × Bool)
chosen_in w = some (w.chosen, w.stored)

text_of-keys_in :
    (name country timezone : Option Bytes) (latitude longitude : Option ℕ) (text : Bytes)
    → text_of name country timezone latitude longitude ≡ some text
    → keys_in (some text)
      ≡ loaded (record {
        name = name;
        country = country;
        timezone = timezone;
        latitude = latitude;
        longitude = longitude;
      })
text_of-keys_in (some name) (some []) (some []) (some latitude) (some longitude) text e =
    rw (sym (some-injective (latitude ∷ longitude ∷ name) text e)) refl
text_of-keys_in _ _ _ _ _ text e = absurd (ground arith)

put-file_in :
    (file : MetadataFile) (text : Option Bytes) (w : Disk) → file_in file (put file text w) ≡ text
put-file_in committed text w = refl
put-file_in pending text w = refl

put-chosen_in :
    (file : MetadataFile) (text : Option Bytes) (w : Disk)
    → chosen_in (put file text w) ≡ chosen_in w
put-chosen_in committed text w = refl
put-chosen_in pending text w = refl

taken-file_in :
    (file : MetadataFile) (b : Bool) (w : Disk)
    → file_in file (record w { taken = b }) ≡ file_in file w
taken-file_in committed b w = refl
taken-file_in pending b w = refl

pub disk-LawfulFiles : LawfulFiles disk chosen_in
disk-LawfulFiles = record {
  write-read = λ file k text w e y.
      ap keys_in (put-file_in file (some text) w)
      ∙ text_of-keys_in k.name k.country k.timezone k.latitude k.longitude text e;
  write_failed-read = λ file text w e. absurd (ground arith);
  write_committed-pending = λ text w. refl;
  write_pending-committed = λ text w. refl;
  unlink-read = λ file w e. ap keys_in (put-file_in file none w);
  unlink_failed-read = λ file w e. absurd (ground arith);
  unlink_committed-pending = λ w. refl;
  unlink_pending-committed = λ w. refl;
  mkdir-read = λ file w. refl;
  chmod-read = λ file w. refl;
  lock-read = λ file w. ap keys_in (taken-file_in file true w);
  unlock-read = λ file w. ap keys_in (taken-file_in file false w);
  write-policy = λ file text w. put-chosen_in file (some text) w;
  unlink-policy = λ file w. put-chosen_in file none w;
  mkdir-policy = λ w. refl;
  chmod-policy = λ w. refl;
  lock-policy = λ w. refl;
  unlock-policy = λ w. refl;
}

abbrev pub pretoria : Metadata ℕ
pretoria = record {
  display_name = codes "Pretoria";
  country_code = [];
  timezone_id = [];
  latitude = 155;
  longitude = 208;
}

abbrev pub at_pretoria : Policy ℕ
at_pretoria = record defaults { location_configured = true; latitude = 155; longitude = 208 }

-- An interrupted change of location: the policy is committed, the record is not.
abbrev pub interrupted : Disk
interrupted = record {
  current = some (90 ∷ 90 ∷ codes "Elsewhere");
  journal = some (155 ∷ 208 ∷ codes "Pretoria");
  chosen = at_pretoria;
  taken = false;
  stored = true;
  policy_locks = 0;
}

abbrev recovered : Disk
recovered = record interrupted { current = some (155 ∷ 208 ∷ codes "Pretoria"); journal = none }

recovers : recover degrees disk (some chosen_in) interrupted ≡ (recovered, true)
unfolding recover metadata_load finish_staged metadata_save coordinate_close metadata_of_keys
    metadata_valid
recovers = refl

metadata_save-Saved_example :
    Saved degrees disk chosen_in disk-LawfulFiles pending pretoria interrupted
      (metadata_save degrees disk pending pretoria interrupted).0
      (metadata_save degrees disk pending pretoria interrupted).1
    × (metadata_load degrees disk committed
          (metadata_save degrees disk pending pretoria interrupted).0
        ≡ metadata_load degrees disk committed interrupted)
    × (chosen_in (metadata_save degrees disk pending pretoria interrupted).0
        ≡ chosen_in interrupted)
metadata_save-Saved_example =
    metadata_save-Saved degrees disk chosen_in disk-LawfulFiles pending pretoria interrupted

finish_staged-Finished_example :
    Finished degrees disk chosen_in disk-LawfulFiles interrupted
      (finish_staged degrees disk interrupted).0
      (finish_staged degrees disk interrupted).1
    × (chosen_in (finish_staged degrees disk interrupted).0 ≡ chosen_in interrupted)
finish_staged-Finished_example =
    finish_staged-Finished degrees disk chosen_in disk-LawfulFiles interrupted

recover_with-Recovered_example :
    Recovered degrees disk chosen_in disk-LawfulFiles at_pretoria interrupted
      (recover_with degrees disk at_pretoria interrupted).0
      (recover_with degrees disk at_pretoria interrupted).1
    × (chosen_in (recover_with degrees disk at_pretoria interrupted).0 ≡ chosen_in interrupted)
recover_with-Recovered_example =
    recover_with-Recovered degrees disk chosen_in disk-LawfulFiles at_pretoria interrupted
