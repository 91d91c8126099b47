-- ===== src/Cli.antt =====
-- src/claw_msg/cli/main.py: the commands that talk to a broker. A command makes an agent from its
-- options, calls one method of it, and prints lines. How a value is printed is a parameter.
pub mod Options
pub mod Commands
pub mod ContactAdd
pub mod Named
