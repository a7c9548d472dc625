-- ===== src/Labels/Store.antt =====
-- server/fleetops/labels/adapters/storage.py: the write-once directory of printed artifacts, at most
-- one for each job and format. `sha256` is hashlib.sha256(...).hexdigest(). What the operating system may
-- refuse is an argument of each call.
use defiant_fleet_ops.Base.{
  ℕ, Bool, true, false, not, ◌&&◌, Option, none, some, List, [], ◌∷◌, leb, ◌==◌, length, Result, ok,
  err, guard, ◌>>◌, output_unavailable, if◌then◌else◌,
}
use defiant_fleet_ops.Text.{Text, text_eq}
use defiant_fleet_ops.Labels.{OutputFormat, png, pdf}

abbrev pub format_eq : OutputFormat → OutputFormat → Bool
format_eq png png = true
format_eq pdf pdf = true
format_eq OutputFormat.zpl OutputFormat.zpl = true
format_eq _ _ = false

-- The path of an artifact below the root: organization, job and extension.
pub record Location : Type 0 where
  pub org_id : ℕ
  pub job_id : ℕ
  pub extension : OutputFormat

abbrev pub location_eq : Location → Location → Bool
location_eq a b =
    a.org_id == b.org_id && (a.job_id == b.job_id && format_eq a.extension b.extension)

pub record Artifact : Type 0 where
  pub path : Location
  pub content : List ℕ

-- Whether the operating system refuses a call: `early` before the link is made, with the checks of
-- the path, and `late` after it, with the last check and the removal of the temporary file.
pub data Fault : Type 0 where
  clear early late : Fault

abbrev pub is_early : Fault → Bool
is_early early = true
is_early _ = false

abbrev pub is_clear : Fault → Bool
is_clear clear = true
is_clear _ = false

-- 4 MiB.
abbrev pub artifact_max : ℕ
artifact_max = 4194304

unfoldable pub artifact_at : List Artifact → Location → Option (List ℕ)
artifact_at [] path = none
artifact_at (a ∷ files) path =
    if location_eq a.path path then some a.content else artifact_at files path

-- What a publication leaves in the directory.
unfoldable pub published : List Artifact → Fault → Location → List ℕ → List Artifact
unfolding artifact_at
published files fault path content =
    if leb (length content) artifact_max && not (is_early fault)
    then elim (artifact_at files path) [
      | none ↦ record { path = path; content = content } ∷ files
      | some present ↦ files
    ]
    else files

module _ (sha256 : List ℕ → Text) where
  -- `ArtifactStore.publish`: the digest that it returns. The link fails where the path exists, and then
  -- the bytes are compared.
  unfoldable pub publish : List Artifact → Fault → Location → List ℕ → Result Text
  unfolding artifact_at
  publish files fault path content = do
    guard (leb (length content) artifact_max) output_unavailable
    guard (not (is_early fault)) output_unavailable
    elim (artifact_at files path) [
      | none ↦ ok tt
      | some present ↦
          guard (leb (length present) artifact_max && text_eq present content) output_unavailable
    ]
    guard (is_clear fault) output_unavailable
    ok (sha256 content)

  -- `ArtifactStore.read`
  unfoldable pub read : List Artifact → Fault → Location → Text → Result (List ℕ)
  unfolding artifact_at
  read files fault path expected = elim (artifact_at files path) [
    | none ↦ err output_unavailable
    | some content ↦
        (guard (is_clear fault && leb (length content) artifact_max) output_unavailable
          >> guard (text_eq (sha256 content) expected) output_unavailable
          >> ok content)
  ]
