-- ===== src/Settings.antt =====
-- backend/config.py: the settings that the task domain reads, with their defaults.
use agent_craft.Prelude.{ℕ}

pub record Settings : Type 0 where
  pub skill_prompt_max_bytes : ℕ
  pub lease_ttl_seconds : ℕ
  pub upload_ttl_hours : ℕ
  pub terminal_retention_days : ℕ
  pub dispatch_batch : ℕ

abbrev pub default_settings : Settings
default_settings = record {
  skill_prompt_max_bytes = 65536;
  lease_ttl_seconds = 90;
  upload_ttl_hours = 24;
  terminal_retention_days = 7;
  dispatch_batch = 16;
}
