-- ===== src/Evidence/Service.antt =====
-- server/fleetops/evidence/service.py: the verification of evidence that a workflow relies on. The
-- organization of the attachment is the caller's, whose rows alone row-level security shows.
use defiant_fleet_ops.Base.{
  ℕ, Bool, true, false, Option, none, some, List, ◌==◌, find, Result, ok, err, guard, ◌>>=◌, ◌>>◌,
  evidence_not_found, evidence_invalid, evidence_storage,
}
use defiant_fleet_ops.Text.{Text}
use defiant_fleet_ops.Evidence.{Attachment, EvidenceRole, EvidenceTables, valid_asset_evidence}
use defiant_fleet_ops.Evidence.Storage.{Objects, read}

-- The configured storage, if any, with its digest.
pub record Storage : Type 0 where
  pub digest : List ℕ → Text
  pub objects : Option Objects

unfoldable pub get_attachment : EvidenceTables → ℕ → Result Attachment
get_attachment t attachment_id = elim (find (λ a. a.id == attachment_id) t.attachments) [
  | none ↦ err evidence_not_found
  | some a ↦ ok a
]

unfoldable pub read_content : Storage → Attachment → Result (List ℕ)
read_content storage row = elim storage.objects [
  | none ↦ err evidence_storage
  | some objects ↦
      read storage.digest objects row.org_text
        record { key = row.storage_key; sha256 = row.sha256; byte_size = row.byte_size }
]

unfoldable pub verify_asset_evidence :
    EvidenceTables → Storage → ℕ → Option ℕ → Option EvidenceRole → Bool → Result (Unit {0})
unfolding get_attachment read_content
verify_asset_evidence t storage asset_id none role true = err evidence_invalid
verify_asset_evidence t storage asset_id none role false = ok tt
verify_asset_evidence t storage asset_id (some attachment_id) role required = do
  row ← get_attachment t attachment_id
  guard (valid_asset_evidence t (some attachment_id) asset_id role) evidence_invalid
  content ← read_content storage row
  ok tt
