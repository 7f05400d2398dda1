-- ===== src/Protocol/Compliance.antt =====
-- The compliance actions of an order, from `pkg/protocol/compliance.go`.
use smart_contract.Prelude.{ℕ}

abbrev pub freeze : ℕ
freeze = b'F'

abbrev pub thaw : ℕ
thaw = b'T'

abbrev pub confiscation : ℕ
confiscation = b'C'
