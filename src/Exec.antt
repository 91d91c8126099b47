-- ===== src/Exec.antt =====
-- What one process of the broker holds (src/claw_msg/server/app.py and the singletons of
-- broker.py and rate_limit.py), and the handlers' monad. What was written before a raise stays
-- written, so the state comes back beside the error too: no handler of the program rolls back.
mod State
mod Monad
unfoldable pub use State.*
unfoldable pub use Monad.*
