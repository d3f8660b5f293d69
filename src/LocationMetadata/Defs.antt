-- ===== src/LocationMetadata/Defs.antt =====
-- Loading, saving and removing the two files. GLib's key files, the durable file operations of Common
-- and the locality lock act on a world `W`; `g_build_filename` never returns NULL, so that a path is
-- one of the two files.
use system_settings.Prelude.{
  ℕ, Bool, false, true, ◌&&◌, ◌||◌, not, Option, none, some, Bytes, Double, is_empty, length, [],
  if◌then◌else◌, ltb,
}

pub data MetadataFile : Type 0 where
  committed pending : MetadataFile

-- `SsLocationMetadata`: the texts in front of the first NUL of each array
pub record Metadata (D : Type 0) : Type 0 where
  pub display_name : Bytes
  pub country_code : Bytes
  pub timezone_id : Bytes
  pub latitude : D
  pub longitude : D

-- `sizeof` of the arrays
abbrev pub display_name_size : ℕ
display_name_size = 256

abbrev pub country_code_size : ℕ
country_code_size = 8

abbrev pub timezone_id_size : ℕ
timezone_id_size = 128

-- What the getters return for the group `Location` of a key file: `none` is an error or NULL.
pub record KeyFile (D : Type 0) : Type 0 where
  pub name : Option Bytes
  pub country : Option Bytes
  pub timezone : Option Bytes
  pub latitude : Option D
  pub longitude : Option D

-- `g_key_file_load_from_file`, with the errors that the code tells apart
pub data KeyRead (D : Type 0) : Type 0 where
  loaded : KeyFile D → KeyRead D
  no_entry key_file_error other_error : KeyRead D

-- `SsLocationMetadataLoadStatus`, with what is loaded
pub data LoadStatus (D : Type 0) : Type 0 where
  ok : Metadata D → LoadStatus D
  missing invalid io_error : LoadStatus D

pub record MetadataSystem (D W : Type 0) : Type 0 where
  -- `g_utf8_validate`
  pub utf8_valid : Bytes → Bool
  pub read_keys : MetadataFile → W → KeyRead D
  -- `g_key_file_to_data`
  pub to_data : KeyFile D → Option Bytes
  -- `infiltratr_mkdir_parents`, `g_chmod`, `infiltratr_atomic_file_write_bytes`,
  -- `infiltratr_unlink_durable`, each with its success
  pub mkdir : W → W × Bool
  pub chmod : W → W × Bool
  pub write : MetadataFile → Bytes → W → W × Bool
  pub unlink : MetadataFile → W → W × Bool
  -- the locality transaction lock
  pub lock : W → W × Bool
  pub unlock : W → W

module _ {D W : Type 0} (f : Double D) (sys : MetadataSystem D W) where
  unfoldable pub metadata_valid : Metadata D → Bool
  metadata_valid v =
      not (is_empty v.display_name)
      && ltb (length v.display_name) display_name_size
      && ltb (length v.country_code) country_code_size
      && ltb (length v.timezone_id) timezone_id_size
      && sys.utf8_valid v.display_name
      && sys.utf8_valid v.country_code
      && sys.utf8_valid v.timezone_id
      && f.finite v.latitude
      && f.finite v.longitude
      && f.le f.minus_90 v.latitude
      && f.le v.latitude f.plus_90
      && f.le f.minus_180 v.longitude
      && f.le v.longitude f.plus_180

  -- `text != NULL` and `g_strlcpy` does not fit
  abbrev pub too_long : Option Bytes → ℕ → Bool
  too_long text size = elim text [ none ↦ false | some t ↦ not (ltb (length t) size) ]

  -- the array after the copy, or as zeroed
  abbrev pub copied : Option Bytes → Bytes
  copied text = elim text [ none ↦ [] | some t ↦ t ]

  unfoldable pub metadata_of_keys : KeyFile D → LoadStatus D
  metadata_of_keys k = elim k.name [
    | none ↦ invalid
    | some name ↦ elim k.latitude [
      | none ↦ invalid
      | some latitude ↦ elim k.longitude [
        | none ↦ invalid
        | some longitude ↦
            let candidate : Metadata D = record {
              display_name = name;
              country_code = copied k.country;
              timezone_id = copied k.timezone;
              latitude = latitude;
              longitude = longitude;
            } in
            if not (ltb (length name) display_name_size)
              || too_long k.country country_code_size
              || too_long k.timezone timezone_id_size
              || not (metadata_valid candidate)
            then invalid
            else ok candidate
      ]
    ]
  ]

  unfoldable pub metadata_load : MetadataFile → W → LoadStatus D
  metadata_load file w = elim (sys.read_keys file w) [
    | loaded k ↦ metadata_of_keys k
    | no_entry ↦ missing
    | key_file_error ↦ invalid
    | other_error ↦ io_error
  ]

  abbrev pub keys_of : Metadata D → KeyFile D
  keys_of v = record {
    name = some v.display_name;
    country = some v.country_code;
    timezone = some v.timezone_id;
    latitude = some v.latitude;
    longitude = some v.longitude;
  }

  -- the directory and the write behind `g_key_file_to_data`
  unfoldable pub publish_data : MetadataFile → Bytes → W → W × Bool
  publish_data file text w =
      let (w1, made) = sys.mkdir w in
      if not made
      then (w1, false)
      else let (w2, changed) = sys.chmod w1 in
        if not changed then (w2, false) else sys.write file text w2

  unfoldable pub metadata_save : MetadataFile → Metadata D → W → W × Bool
  unfolding publish_data
  metadata_save file v w =
      if not (metadata_valid v) then (w, false) else elim (sys.to_data (keys_of v)) [
        | none ↦ (w, false)
        | some text ↦ publish_data file text w
      ]

  -- `ss_location_metadata_load_status`, `_load`, `_save`, `_clear`, `_stage`, `_discard_staged`
  abbrev pub load_status : W → LoadStatus D
  load_status = metadata_load committed

  abbrev pub load : W → Bool
  load w = elim (load_status w) [ ok v ↦ true | _ ↦ false ]

  abbrev pub save : Metadata D → W → W × Bool
  save = metadata_save committed

  abbrev pub clear : W → W × Bool
  clear = sys.unlink committed

  abbrev pub stage : Metadata D → W → W × Bool
  stage = metadata_save pending

  abbrev pub discard_staged : W → W × Bool
  discard_staged = sys.unlink pending

  -- A journal that cannot be removed does not undo the publication.
  unfoldable pub finish_staged : W → W × Bool
  finish_staged w = elim (metadata_load pending w) [
    | ok staged ↦
        let (w1, saved) = metadata_save committed staged w in
        if not saved then (w1, false) else ((sys.unlink pending w1).0, true)
    | _ ↦ (w, false)
  ]
