-- ===== src/Reviews/Rows.antt =====
-- backend/v2/models/content.py: the rows of experts and skills, their revisions, their reviews and the audit
-- log, and the answers of the services on them.
use agent_craft.Prelude.{ℕ, String, Bool, true, false, ◌==◌, Option, none, some, List}

-- REVISION_STATUSES and ENTITY_STATUSES
pub data RevisionStatus : Type 0 where
  draft : RevisionStatus
  pending_review : RevisionStatus
  approved : RevisionStatus
  rejected : RevisionStatus
  published : RevisionStatus
  archived : RevisionStatus

pub data EntityStatus : Type 0 where
  draft_entity : EntityStatus
  published_entity : EntityStatus
  archived_entity : EntityStatus

pub data Target : Type 0 where
  expert_revision : Target
  skill_revision : Target

pub data ReviewResult : Type 0 where
  result_approved : ReviewResult
  result_rejected : ReviewResult

-- The refusals: ADMIN_REASON_REQUIRED, VALIDATION_ERROR, the unified 404, NoResultFound, REVIEW_PENDING,
-- TOOL_REVOKED and REVISION_NOT_PUBLISHED.
pub data Refusal : Type 0 where
  admin_reason_required : Refusal
  validation_error : Refusal
  revision_not_found : Refusal
  no_result_found : Refusal
  review_pending : Refusal
  tool_revoked : Refusal
  revision_not_published : Refusal

-- content_json: the revisions of skills that it names, and the rest of it.
pub record Content : Type 0 where
  pub body : ℕ
  pub skill_refs : List ℕ

pub record Entity : Type 0 where
  pub id : ℕ
  pub owner_id : ℕ
  pub published_revision_id : Option ℕ
  pub status : EntityStatus

pub record Revision : Type 0 where
  pub id : ℕ
  pub entity_id : ℕ
  pub owner_id : ℕ
  pub revision_no : ℕ
  pub content_json : Content
  pub content_sha256 : ℕ
  pub status : RevisionStatus

pub record ToolVersion : Type 0 where
  pub tool_id : ℕ
  pub version : ℕ
  pub enabled : Bool

pub record RevisionTool : Type 0 where
  pub expert_revision_id : ℕ
  pub tool_id : ℕ
  pub version : ℕ

pub record ContentReview : Type 0 where
  pub target_type : Target
  pub target_revision_id : ℕ
  pub content_sha256 : ℕ
  pub result : ReviewResult
  pub reviewer_id : ℕ

pub record AuditLog : Type 0 where
  pub actor_id : ℕ
  pub action : ReviewResult
  pub target_type : Target
  pub target_id : ℕ
  pub reason : String
  pub request_id : Option ℕ
  pub content_sha256 : ℕ
  pub previous : Option ℕ
  pub status_before : Option EntityStatus

-- The two tables of a domain.
pub record Catalog : Type 0 where
  pub entities : List Entity
  pub revisions : List Revision

pub record Store : Type 0 where
  pub experts : Catalog
  pub skills : Catalog
  pub tool_catalog : List ToolVersion
  pub revision_tools : List RevisionTool
  pub content_reviews : List ContentReview
  pub audit_logs : List AuditLog

pub record Primitives : Type 0 where
  pub strip : String → String
  pub content_sha256 : Content → ℕ

pub data Answer (A : Type 0) : Type 0 where
  done : A → Answer A
  refused : Refusal → Answer A

infixl 1 ◌>>=◌ ◌>>◌
unfoldable pub ◌>>=◌ : {A B : Type 0} → Answer A → (A → Answer B) → Answer B
done a >>= k = k a
refused r >>= k = refused r

unfoldable pub ◌>>◌ : {A B : Type 0} → Answer A → Answer B → Answer B
unfolding ◌>>=◌
m >> k = m >>= (λ _. k)

unfoldable pub needed : {A : Type 0} → Option A → Refusal → Answer A
needed none r = refused r
needed (some a) r = done a

unfoldable pub ensure : Bool → Refusal → Answer (Unit {0})
ensure false r = refused r
ensure true r = done tt

-- _domain_of
abbrev pub catalog : Target → Store → Catalog
catalog expert_revision s = s.experts
catalog skill_revision s = s.skills

abbrev pub with_catalog : Target → Catalog → Store → Store
with_catalog expert_revision c s = record s { experts = c }
with_catalog skill_revision c s = record s { skills = c }

abbrev pub is_pending : RevisionStatus → Bool
is_pending draft = false
is_pending pending_review = true
is_pending approved = false
is_pending rejected = false
is_pending published = false
is_pending archived = false

abbrev pub is_published : RevisionStatus → Bool
is_published draft = false
is_published pending_review = false
is_published approved = false
is_published rejected = false
is_published published = true
is_published archived = false

abbrev pub is_entity : ℕ → Entity → Bool
is_entity id e = e.id == id

abbrev pub is_revision : ℕ → Revision → Bool
is_revision id v = v.id == id

abbrev pub same_pointer : Option ℕ → Option ℕ → Bool
same_pointer none none = true
same_pointer none (some b) = false
same_pointer (some a) none = false
same_pointer (some a) (some b) = a == b
