-- ===== src/Evidence.antt =====
-- The evidence tables and the two checks that history relies on: valid_asset_evidence and
-- guard_asset_evidence of server/alembic/versions/0012_evidence.py, over one organization's rows.
pub mod Storage
pub mod Service
use defiant_fleet_ops.Base.{
  ℕ, ◌+◌, ◌≡◌, refl, Bool, true, false, not, ◌||◌, ◌&&◌, Option, none, some, List, [], ◌∷◌, ◌++◌,
  ltb, leb, ◌==◌, any, all, length, is_some, if◌then◌else◌,
}
use defiant_fleet_ops.Text.{Text, text_eq, btrim}

pub data EvidenceSource : Type 0 where
  photo document scan report certificate other : EvidenceSource

pub data EvidenceRole : Type 0 where
  receiving_evidence disposal_evidence config_evidence exception_evidence other : EvidenceRole

pub data EvidenceEntity : Type 0 where
  asset receipt receipt_line asset_configuration receiving_exception : EvidenceEntity

abbrev pub role_eq : EvidenceRole → EvidenceRole → Bool
role_eq EvidenceRole.receiving_evidence EvidenceRole.receiving_evidence = true
role_eq EvidenceRole.disposal_evidence EvidenceRole.disposal_evidence = true
role_eq EvidenceRole.config_evidence EvidenceRole.config_evidence = true
role_eq EvidenceRole.exception_evidence EvidenceRole.exception_evidence = true
role_eq EvidenceRole.other EvidenceRole.other = true
role_eq _ _ = false

abbrev pub is_asset : EvidenceEntity → Bool
is_asset EvidenceEntity.asset = true
is_asset _ = false

-- A row of attachments. `org_text` is the text of its organization, which its storage key begins
-- with; a time that is not finite is `none`.
pub record Attachment : Type 0 where
  pub id : ℕ
  pub org_text : Text
  pub sha256 : Text
  pub byte_size : ℕ
  pub storage_key : Text
  pub original_filename : Text
  pub media_type : Text
  pub source_type : EvidenceSource
  pub captured_by : ℕ
  pub captured_at : Option ℕ
  pub recorded_at : Option ℕ
  pub supersedes_attachment_id : Option ℕ

pub record AttachmentLink : Type 0 where
  pub attachment_id : ℕ
  pub entity_type : EvidenceEntity
  pub entity_id : ℕ
  pub link_role : EvidenceRole
  pub actor_id : ℕ
  pub recorded_at : Option ℕ

-- The rows of one organization: attachments, their links, and the identifiers of its Actors.
pub record EvidenceTables : Type 0 where
  pub attachments : List Attachment
  pub links : List AttachmentLink
  pub actors : List ℕ

-- `^[0-9a-f]{64}$`
unfoldable pub is_sha256 : Text → Bool
is_sha256 s =
    length s == 64 && all (λ c. (leb b'0' c && leb c b'9') || (leb b'a' c && leb c b'f')) s

-- `[a-zA-Z0-9!#$&^_.+-]`
is_token : ℕ → Bool
is_token c =
    (leb b'a' c && leb c b'z')
    || (leb b'A' c && leb c b'Z')
    || (leb b'0' c && leb c b'9')
    || any (λ k. c == k) (33 ∷ 35 ∷ 36 ∷ 38 ∷ 94 ∷ 95 ∷ 46 ∷ 43 ∷ 45 ∷ [])

-- One or more tokens, a slash, and one or more tokens, as a scan with two states; `seen` tells
-- whether the present part has a token yet.
media_scan : Bool → Bool → Text → Bool
media_scan slash seen [] = slash && seen
media_scan slash seen (c ∷ s) = elim (c == 47) [
  | true ↦ not slash && seen && media_scan true false s
  | false ↦ is_token c && media_scan slash true s
]

-- The conditions of valid_asset_evidence on the attachment alone.
unfoldable pub is_sound : Attachment → Bool
unfolding is_sha256 is_token media_scan btrim
is_sound a =
    is_some a.captured_at
    && is_some a.recorded_at
    && is_sha256 a.sha256
    && text_eq a.storage_key (a.org_text ++ 47 ∷ a.sha256)
    && leb 1 (length (btrim a.original_filename))
    && leb (length (btrim a.original_filename)) 255
    && media_scan false false a.media_type
    && leb (length a.media_type) 127

abbrev role_fits : Option EvidenceRole → EvidenceRole → Bool
role_fits none r = true
role_fits (some p) r = role_eq r p

abbrev pub is_actor : EvidenceTables → ℕ → Bool
is_actor t who = any (λ k. k == who) t.actors

-- A link of the attachment to this Asset, in the wanted role, by an Actor of the organization.
unfoldable pub supports : EvidenceTables → ℕ → ℕ → Option EvidenceRole → AttachmentLink → Bool
supports t ref asset_id role l =
    l.attachment_id == ref
    && is_asset l.entity_type
    && l.entity_id == asset_id
    && role_fits role l.link_role
    && is_some l.recorded_at
    && is_actor t l.actor_id

-- `valid_asset_evidence(p_org, p_ref, p_asset, p_role)`; no row fits an absent reference.
unfoldable pub valid_asset_evidence : EvidenceTables → Option ℕ → ℕ → Option EvidenceRole → Bool
unfolding is_sound supports
valid_asset_evidence t none asset_id role = false
valid_asset_evidence t (some ref) asset_id role =
    any (λ a. a.id == ref && is_actor t a.captured_by && is_sound a) t.attachments
    && any (supports t ref asset_id role) t.links
