-- ===== src/Manifest/Keys.antt =====
-- The keys of manifests and artifacts tell backups apart, and one kind from the other.
use backwyn.Prelude.{◌≡◌, ◌≢◌, refl, sym, ap, ◌∙◌, ◌++◌, true, false}
use backwyn.Prelude.Text.{Text, lit, has_prefix, trim_prefix, trim_suffix}
use backwyn.Prelude.Text.Trim.{trim_prefix-append, trim_suffix-append, has_prefix-append}
use backwyn.Manifest.{manifest_key, artifact_key_of}

-- the id that `SweepOrphans` reads off a key
abbrev pub id_of_manifest : Text → Text
id_of_manifest k = trim_suffix (trim_prefix k (lit "manifests/")) (lit ".manifest.json")

abbrev pub id_of_artifact : Text → Text
id_of_artifact k = trim_suffix (trim_prefix k (lit "artifacts/")) (lit ".dump.enc")

pub id_of_manifest-manifest_key : (id : Text) → id_of_manifest (manifest_key id) ≡ id
unfolding manifest_key
id_of_manifest-manifest_key id =
    rw (trim_prefix-append (lit "manifests/") (id ++ lit ".manifest.json"))
      (trim_suffix-append id (lit ".manifest.json"))

pub id_of_artifact-artifact_key_of : (id : Text) → id_of_artifact (artifact_key_of id) ≡ id
unfolding artifact_key_of
id_of_artifact-artifact_key_of id =
    rw (trim_prefix-append (lit "artifacts/") (id ++ lit ".dump.enc"))
      (trim_suffix-append id (lit ".dump.enc"))

pub manifest_key-injective : (a b : Text) → manifest_key a ≡ manifest_key b → a ≡ b
manifest_key-injective a b e =
    sym (id_of_manifest-manifest_key a) ∙ ap id_of_manifest e ∙ id_of_manifest-manifest_key b

pub artifact_key_of-injective : (a b : Text) → artifact_key_of a ≡ artifact_key_of b → a ≡ b
artifact_key_of-injective a b e =
    sym (id_of_artifact-artifact_key_of a) ∙ ap id_of_artifact e ∙ id_of_artifact-artifact_key_of b

pub has_prefix-manifest_key : (id : Text) → has_prefix (manifest_key id) (lit "manifests/") ≡ true
unfolding manifest_key
has_prefix-manifest_key id = has_prefix-append (lit "manifests/") (id ++ lit ".manifest.json")

-- A manifest's key is no artifact's.
pub has_prefix-manifest_key_artifacts :
    (id : Text) → has_prefix (manifest_key id) (lit "artifacts/") ≡ false
unfolding manifest_key lit has_prefix
has_prefix-manifest_key_artifacts id = refl

pub has_prefix-artifact_key_of :
    (id : Text) → has_prefix (artifact_key_of id) (lit "artifacts/") ≡ true
unfolding artifact_key_of
has_prefix-artifact_key_of id = has_prefix-append (lit "artifacts/") (id ++ lit ".dump.enc")

pub manifest_key-ne-artifact_key_of : (a b : Text) → manifest_key a ≢ artifact_key_of b
manifest_key-ne-artifact_key_of a b e = cc (
  has_prefix-manifest_key_artifacts a,
  has_prefix-artifact_key_of b,
  ap (λ (k : Text). has_prefix k (lit "artifacts/")) e,
)
