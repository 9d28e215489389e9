-- ===== src/Align/Tests.antt =====
-- Runs of the alignment counters.
use rlink_rs.Align.{AlignManager}

-- Two parents, which have both sent batch 7.
abbrev seven : AlignManager
seven = record { parent_execution_size = 2; batch_id = 7; reached_size = 2 }
