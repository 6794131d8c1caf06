-- ===== src/Provider/Storage.antt =====
-- backend/v2/provider_service.py: the storage accounts through fail_unstarted_tasks.
use agent_craft.Provider.Charged.{Charged}
