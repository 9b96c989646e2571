-- ===== src/Manifest.antt =====
-- internal/manifest/manifest.go: the metadata record of a backup, its storage key, and its JSON
-- form. The encoder and decoder are `encoding/json`'s, and stand as the interface `Json`.
pub mod Keys
use backwyn.Prelude.{ℕ, [], ◌++◌, ◌≡◌, Bool, false, none, Result, ok, err}
use backwyn.Prelude.Int.{ℤ, pos}
use backwyn.Prelude.Text.{Text, lit}
use backwyn.Time.{Time, zero_time}
use backwyn.Storage.{Reader}

-- A Go `int64`, as its bit pattern below 2 ^ 64.
abbrev pub Int64 : Type 0
Int64 = ℕ

pub record Verification : Type 0 where
  pub verified : Bool
  pub verified_at : Time
  pub checksum_ok : Bool
  pub listable : Bool
  pub restored : Bool
  pub table_count : ℤ
  pub error : Text

-- `Verification{}`
abbrev pub no_verification : Verification
no_verification = record {
  verified = false;
  verified_at = zero_time;
  checksum_ok = false;
  listable = false;
  restored = false;
  table_count = pos 0;
  error = [];
}

pub record Manifest : Type 0 where
  pub schema_version : ℤ
  pub id : Text
  pub created_at : Time
  pub source_label : Text
  pub artifact_key : Text
  pub format : Text
  pub pg_dump_version : Text
  pub plaintext_size : Int64
  pub encrypted_size : Int64
  pub plaintext_sha256 : Text
  pub verification : Verification

-- What `encoding/json` makes of a manifest, and of the bytes of a reader.
pub record Json : Type 0 where
  pub encode : Manifest → Text
  pub decode_json : Reader → Result Text Manifest

-- A manifest that was encoded decodes to itself.
pub record IsFaithful (j : Json) : Type 0 where
  pub decode-encode :
      (m : Manifest) → j.decode_json (record { bytes = j.encode m; fault = none }) ≡ ok m

-- `ManifestKey`
unfoldable pub manifest_key : Text → Text
manifest_key id = lit "manifests/" ++ (id ++ lit ".manifest.json")

-- The key of an artifact: `backup.Run` writes it, `retention.SweepOrphans` takes it apart.
unfoldable pub artifact_key_of : Text → Text
artifact_key_of id = lit "artifacts/" ++ (id ++ lit ".dump.enc")

-- `Decode`
unfoldable pub decode : Json → Reader → Result Text Manifest
decode j r = elim (j.decode_json r) [ ok m ↦ ok m | err e ↦ err (lit "decode manifest: " ++ e) ]
