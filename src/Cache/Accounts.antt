-- ===== src/Cache/Accounts.antt =====
-- The accounts of the cache: what the two byte counters stand for.
use light_bridge_engine.Base.{ℕ, ◌≡◌, length}
use light_bridge_engine.Base.Table.{Distinct, total}
use light_bridge_engine.Cache.Types.{State, Entry, loading, ready}

abbrev pub ready_weight : Entry → ℕ
ready_weight (loading expected resident) = 0
ready_weight (ready bytes pins last_used resident) = length bytes

abbrev pub loading_weight : Entry → ℕ
loading_weight (loading expected resident) = expected
loading_weight (ready bytes pins last_used resident) = 0

module _ {K : Type 0} (dec : Discrete K) where
  -- Every key has one entry, and each counter is the sum over its kind of entry.
  pub record Accounts (s : State K) : Type 0 where
    pub distinct : Distinct dec s.entries
    pub used : s.used_bytes ≡ total dec ready_weight s.entries
    pub reserved : s.reserved_bytes ≡ total dec loading_weight s.entries
