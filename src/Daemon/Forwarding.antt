-- ===== src/Daemon/Forwarding.antt =====
-- What the daemon posts (src/claw_msg/daemon/runner.py and webhook.py).
use claw_msg.Prelude.{◌+◌, ◌≡◌, List, if◌then◌else◌}
use claw_msg.Json.{Json}
use claw_msg.Daemon.{Webhooks}

-- The clients that are open are the shared one, if it is there.
abbrev pub Balanced : Webhooks → Type 0
Balanced s = s.opened ≡ s.closed + (if s.shared_client then 1 else 0)
