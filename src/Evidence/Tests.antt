-- ===== src/Evidence/Tests.antt =====
-- An instance of the theorem on gateway/evidence_buffer.py: three items, one of an unknown kind and
-- one whose save raises.
use agent_authorization_gate.Base.{ℕ, Bool, true, false, [], codes}
use agent_authorization_gate.Evidence.{EvidenceBuffer, Saved, receipt, stats, rate_limits, enqueue}

abbrev saves : Saved ℕ → Bool
saves (receipt _ _) = true
saves (stats _ _) = false
saves (rate_limits _ _) = true

abbrev empty : EvidenceBuffer ℕ
empty = record {
  queue = [];
  flush_count = 0;
  flush_errors = 0;
  total_enqueued = 0;
  total_persisted = 0;
}

abbrev filled : EvidenceBuffer ℕ
filled =
    enqueue (codes "receipt") (codes "t") 1
      (enqueue (codes "other") (codes "t") 2 (enqueue (codes "stats") (codes "t") 3 empty))
