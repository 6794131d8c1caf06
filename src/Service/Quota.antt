-- ===== src/Service/Quota.antt =====
-- The quota steps of backend/v2/task_service.py (_ensure_quota_rows, _charge_creation_quota), and
-- the message check that creation and sending share.
use Prim.Native.Char.{code}
use agent_craft.Prelude.{
  ℕ, String, ◌+◌, Bool, true, false, ◌&&◌, ◌||◌, ◌==◌, Option, none, some, if◌then◌else◌, leb, ltb,
  not,
}
use agent_craft.Model.Words.{quota_daily_exceeded, quota_active_exceeded}
use agent_craft.Model.Rows.{UserQuota, UserQuotaUsage}
use agent_craft.Model.Tx.{Exn, Tx, ok, app_error, get, require, ◌>>=◌, ◌>>◌}
use agent_craft.Table.{set_row}
use agent_craft.Release.{update_usage}
use agent_craft.Settings.{Settings}

-- `str.isspace`, for the blank test `not text.strip()`.
abbrev pub is_space : ℕ → Bool
is_space c =
    (leb 9 c && leb c 13)
    || ((leb 28 c && leb c 32)
        || (c == 133
            || (c == 160
                || (c == 5760
                    || ((leb 8192 c && leb c 8202)
                        || (c == 8232
                            || (c == 8233 || (c == 8239 || (c == 8287 || c == 12288)))))))))

abbrev pub is_blank : String → Bool
is_blank String.[] = true
is_blank (String.◌∷◌ c s) = is_space (code c) && is_blank s

-- `len(text.encode("utf-8"))`
abbrev pub utf8_size : ℕ → ℕ
utf8_size c = if ltb c 128 then 1 else if ltb c 2048 then 2 else if ltb c 65536 then 3 else 4

abbrev pub utf8_length : String → ℕ
utf8_length String.[] = 0
utf8_length (String.◌∷◌ c s) = utf8_size (code c) + utf8_length s

-- _validate_initial_message
unfoldable pub validate_message : Settings → String → Tx (Unit {0})
validate_message settings text = do
  require (not (is_blank text)) Exn.validation_error
  require (leb (utf8_length text) settings.skill_prompt_max_bytes) Exn.validation_error

abbrev pub default_quota : UserQuota
default_quota = record {
  max_daily_tasks = 5;
  max_active_tasks = 3;
  max_running_tasks = 1;
  max_retained_storage_bytes = 1073741824;
}

abbrev pub no_usage : UserQuotaUsage
no_usage = record { active_tasks = 0; running_tasks = 0; retained_storage_bytes = 0 }

-- INSERT ... ON CONFLICT DO NOTHING
abbrev pub or_insert {ℓ} : {A : Type ℓ} → (ℕ → Option A) → ℕ → A → ℕ → Option A
or_insert f k a = elim (f k) [ none ↦ set_row f k (some a) | some b ↦ f ]

-- _ensure_quota_rows
unfoldable pub ensure_quota_rows : ℕ → Tx (Unit {0})
ensure_quota_rows owner db = ok (
  tt,
  record db {
    quotas = or_insert db.quotas owner default_quota;
    usage = or_insert db.usage owner no_usage;
  },
)

-- The count of the day after one more task, or none where the quota leaves no room.
abbrev pub next_daily : Option UserQuota → Option ℕ → Option ℕ
next_daily none n = none
next_daily (some q) none = if ltb 0 q.max_daily_tasks then some 1 else none
next_daily (some q) (some n) =
    if ltb 0 q.max_daily_tasks && ltb n q.max_daily_tasks then some (n + 1) else none

abbrev set_daily : (ℕ → ℕ → Option ℕ) → ℕ → ℕ → ℕ → ℕ → ℕ → Option ℕ
set_daily f u d n u' d' = if u == u' && d == d' then some n else f u' d'

abbrev pub write_daily : ℕ → ℕ → Option ℕ → Tx ℕ
write_daily owner day none db = ok (0, db)
write_daily owner day (some n) db = ok (1, record db { daily = set_daily db.daily owner day n })

unfoldable pub charge_daily : ℕ → ℕ → Tx ℕ
charge_daily owner day db =
    write_daily owner day (next_daily (db.quotas owner) (db.daily owner day)) db

-- `x < (SELECT limit FROM user_quotas WHERE user_id = :u)`: false where there is no row.
abbrev pub below_quota : Option UserQuota → (UserQuota → ℕ) → ℕ → Bool
below_quota none limit x = false
below_quota (some q) limit x = ltb x (limit q)

-- _charge_creation_quota
unfoldable pub charge_creation_quota : ℕ → ℕ → Tx (Unit {0})
charge_creation_quota owner day = do
  ensure_quota_rows owner
  daily ← charge_daily owner day
  require (ltb 0 daily) (app_error quota_daily_exceeded 429)
  db ← get
  active ←
      update_usage owner
        (λ q. below_quota (db.quotas owner) (λ l. l.max_active_tasks) q.active_tasks)
        (λ q. record q { active_tasks = q.active_tasks + 1 })
  require (ltb 0 active) (app_error quota_active_exceeded 429)
