-- ===== src/Evidence/Storage.antt =====
-- server/fleetops/evidence/storage.py: the write-once storage of evidence bytes. The directory of the
-- deployment is the list of its published objects by key; `digest` is hashlib.sha256(...).hexdigest(),
-- and redirected paths and failures of the file system do not occur.
pub mod Laws
use defiant_fleet_ops.Base.{
  ℕ, Bool, true, false, Option, none, some, List, [], ◌∷◌, ◌++◌, ◌==◌, length, Result, ok, err,
  guard, ◌>>=◌, ◌>>◌, evidence_storage, if◌then◌else◌, ◌&&◌,
}
use defiant_fleet_ops.Text.{Text, text_eq}
use defiant_fleet_ops.Evidence.{is_sha256}

pub record StoredEvidence : Type 0 where
  pub key : Text
  pub sha256 : Text
  pub byte_size : ℕ

abbrev pub Objects : Type 0
Objects = List (Text × List ℕ)

unfoldable pub object_at : Objects → Text → Option (List ℕ)
object_at [] key = none
object_at ((k, content) ∷ objects) key =
    if text_eq k key then some content else object_at objects key

-- `f"{organization_id}/{sha256}"`
abbrev pub key_of : Text → Text → Text
key_of org sha = org ++ 47 ∷ sha

-- `_path`: the reference is to name an object of this organization by its digest.
unfoldable pub checked_path : Text → StoredEvidence → Result (Unit {0})
unfolding is_sha256
checked_path org r =
    guard (is_sha256 r.sha256 && text_eq r.key (key_of org r.sha256)) evidence_storage

module _ (digest : List ℕ → Text) where
  unfoldable pub read : Objects → Text → StoredEvidence → Result (List ℕ)
  unfolding checked_path object_at
  read objects org r = do
    checked_path org r
    content ← elim (object_at objects r.key) [ none ↦ err evidence_storage | some c ↦ ok c ]
    guard (length content == r.byte_size) evidence_storage
    guard (text_eq (digest content) r.sha256) evidence_storage
    ok content

  abbrev pub reference_of : Text → List ℕ → StoredEvidence
  reference_of org content = record {
    key = key_of org (digest content);
    sha256 = digest content;
    byte_size = length content;
  }

  -- Publication by a hard link, which fails where the key exists; then the bytes are compared.
  unfoldable pub put : Objects → Text → List ℕ → Result (StoredEvidence × Objects)
  unfolding read
  put objects org content =
      let r = reference_of org content in
      let existing = read objects org r in
      checked_path org r >> elim (object_at objects r.key) [
        | none ↦ ok (r, (r.key, content) ∷ objects)
        | some present ↦
            (existing >>= λ bytes.
            guard (text_eq bytes content) evidence_storage >> ok (r, objects))
      ]
