-- ===== src/Agent/Refines.antt =====
-- The agent against the specification of its map.
use scale_cluster_agent.Agent.{Agent}
use scale_cluster_agent.Agent.Records.{Records, Changes}
use scale_cluster_agent.Prelude.{text_eq, nat_eq}

-- Changes one after the other.
pub data History (m : Records) : Records → Type 0 where
  start : History m m
  then_change : {m' m'' : Records} → History m m' → Changes m' m'' → History m m''
