-- ===== src/Reviews.antt =====
-- backend/v2/review_service.py: the review of a revision that its author has submitted, in one
-- transaction. `meanwhile` is what other transactions commit between the first read, which takes no lock,
-- and the lock of the entity; canonical JSON, SHA-256 and `strip` are parameters.
pub mod Rows
pub mod Finding
pub mod Pointers
pub mod Decisions
pub mod Stale
use agent_craft.Prelude.{
  if◌then◌else◌, ℕ, String, Bool, true, false, not, ◌&&◌, ◌==◌, Option, none, some, List, [], ◌∷◌,
  ◌++◌, ltb, length, find, any, update_where, count,
}
use agent_craft.Files.Names.{codes}
use Rows.{
  RevisionStatus, EntityStatus, Target, ReviewResult, Refusal, Content, Entity, Revision,
  ToolVersion, RevisionTool, ContentReview, AuditLog, Catalog, Store, Primitives, Answer, done,
  refused, ◌>>=◌, ◌>>◌, needed, ensure, catalog, with_catalog, is_pending, is_published, is_entity,
  is_revision, same_pointer, draft, pending_review, approved, rejected, published, archived,
  published_entity, expert_revision, skill_revision, result_approved, result_rejected,
  admin_reason_required, validation_error, revision_not_found, no_result_found, review_pending,
  tool_revoked, revision_not_published,
}

-- require_reason
unfoldable pub require_reason : Primitives → Option String → Answer String
require_reason p none = refused admin_reason_required
require_reason p (some reason) =
    if ltb 0 (length (codes (p.strip reason)))
    then done (p.strip reason)
    else refused admin_reason_required

-- The checks that both reviews make of the locked rows: the owners, the status and the digest.
abbrev pub is_reviewable : Primitives → Entity → Revision → Bool
is_reviewable p e v =
    v.owner_id == e.owner_id
    && (is_pending v.status && (p.content_sha256 v.content_json == v.content_sha256))

abbrev pub tool_enabled : List ToolVersion → RevisionTool → Bool
tool_enabled tools row =
    elim (find (λ (t : ToolVersion). t.tool_id == row.tool_id && (t.version == row.version))
      tools) [ none ↦ false | some t ↦ t.enabled ]

-- _assert_tools_enabled, for an expert
abbrev pub tools_enabled : Target → ℕ → Store → Bool
tools_enabled expert_revision rid s = not (
    any
      (λ (row : RevisionTool).
        row.expert_revision_id == rid && not (tool_enabled s.tool_catalog row))
      s.revision_tools)
tools_enabled skill_revision rid s = true

abbrev pub ref_published : List Revision → ℕ → Bool
ref_published revisions id = elim (find (is_revision id) revisions) [
  | none ↦ false
  | some v ↦ is_published v.status
]

-- _assert_skill_refs_published, for an expert
abbrev pub skill_refs_published : Target → Content → Store → Bool
skill_refs_published expert_revision content s =
    not (any (λ (id : ℕ). not (ref_published s.skills.revisions id)) content.skill_refs)
skill_refs_published skill_revision content s = true

-- The condition of the compare-and-swap on the pointer.
abbrev pub is_current : Entity → Entity → Bool
is_current e x = x.id == e.id && same_pointer x.published_revision_id e.published_revision_id

abbrev pub point_to : ℕ → Entity → Entity
point_to rid e = record e { published_revision_id = some rid; status = published_entity }

abbrev pub set_status : RevisionStatus → Revision → Revision
set_status status v = record v { status = status }

-- Archives the revision that was published before, and raises if its row is not there.
unfoldable pub archive_previous : Option ℕ → ℕ → List Revision → Answer (List Revision)
archive_previous none rid revisions = done revisions
archive_previous (some old) rid revisions =
    if old == rid then done revisions else elim (find (is_revision old) revisions) [
      | none ↦ refused no_result_found
      | some v ↦ done (update_where (is_revision old) (set_status archived) revisions)
    ]

-- content_reviews and audit_logs
abbrev pub log_review :
    Target
    → ReviewResult
    → Revision
    → ℕ
    → String
    → Option ℕ
    → Option ℕ
    → Option EntityStatus
    → Store
    → Store
log_review target result v reviewer reason request previous before s = record s {
  content_reviews =
      s.content_reviews
      ++ (record {
        target_type = target;
        target_revision_id = v.id;
        content_sha256 = v.content_sha256;
        result = result;
        reviewer_id = reviewer;
      }
          ∷ []);
  audit_logs =
      s.audit_logs
      ++ (record {
        actor_id = reviewer;
        action = result;
        target_type = target;
        target_id = v.id;
        reason = reason;
        request_id = request;
        content_sha256 = v.content_sha256;
        previous = previous;
        status_before = before;
      }
          ∷ []);
}

-- approve_revision, from the lock of the entity on
unfoldable pub approve_locked :
    Primitives → Target → ℕ → ℕ → ℕ → String → Option ℕ → Store → Answer Store
approve_locked p target rid entity_id reviewer reason request s = do
  e ← needed (find (is_entity entity_id) (catalog target s).entities) no_result_found
  v ← needed (find (is_revision rid) (catalog target s).revisions) no_result_found
  ensure (is_reviewable p e v) review_pending
  ensure (tools_enabled target v.id s) tool_revoked
  ensure (skill_refs_published target v.content_json s) revision_not_published
  ensure (ltb 0 (count (is_current e) (catalog target s).entities)) review_pending
  revisions ←
      archive_previous e.published_revision_id v.id
        (update_where (is_revision v.id) (set_status published) (catalog target s).revisions)
  done (
      log_review target result_approved v reviewer reason request e.published_revision_id
        (some e.status)
        (with_catalog target
          (record {
            entities = update_where (is_current e) (point_to v.id) (catalog target s).entities;
            revisions = revisions;
          })
          s))

unfoldable pub approve_revision :
    Primitives
    → Target
    → Option ℕ
    → ℕ
    → Option String
    → Option ℕ
    → (Store → Store)
    → Store
    → Answer Store
approve_revision p target raw reviewer reason request meanwhile s = do
  why ← require_reason p reason
  rid ← needed raw validation_error
  seen ← needed (find (is_revision rid) (catalog target s).revisions) revision_not_found
  approve_locked p target rid seen.entity_id reviewer why request (meanwhile s)

-- reject_revision, from the lock of the entity on
unfoldable pub reject_locked :
    Primitives → Target → ℕ → ℕ → ℕ → String → Option ℕ → Store → Answer Store
reject_locked p target rid entity_id reviewer reason request s = do
  e ← needed (find (is_entity entity_id) (catalog target s).entities) no_result_found
  v ← needed (find (is_revision rid) (catalog target s).revisions) no_result_found
  ensure (is_reviewable p e v) review_pending
  done (
      log_review target result_rejected v reviewer reason request none none (
        with_catalog target
          (record {
            entities = (catalog target s).entities;
            revisions =
                update_where (is_revision v.id) (set_status rejected) (catalog target s).revisions;
          })
          s))

unfoldable pub reject_revision :
    Primitives
    → Target
    → Option ℕ
    → ℕ
    → Option String
    → Option ℕ
    → (Store → Store)
    → Store
    → Answer Store
reject_revision p target raw reviewer reason request meanwhile s = do
  why ← require_reason p reason
  rid ← needed raw validation_error
  seen ← needed (find (is_revision rid) (catalog target s).revisions) revision_not_found
  reject_locked p target rid seen.entity_id reviewer why request (meanwhile s)
