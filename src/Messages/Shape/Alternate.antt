-- ===== src/Messages/Shape/Alternate.antt =====
-- compactor/main.py: what the two merges before a request is forwarded leave.
use zions_light_ai.Prelude.Text.{Text}
