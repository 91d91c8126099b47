-- ===== src/Daemon/Service.antt =====
-- src/claw_msg/daemon/service.py: the files of a system service. A file has lines here, each ended
-- by a newline, and the home directory and the Python interpreter are parameters.
use Prim.Native.String.{◌++◌}
use claw_msg.Prelude.{ℕ, String, Option, none, some, List, [], ◌∷◌}
use claw_msg.Prelude.Dict.{Dict, put}

-- A file: its lines, and its mode if `chmod` has set it.
pub record ServiceFile : Type 0 where
  pub lines : List String
  pub mode : Option ℕ

abbrev pub ServiceFiles : Type 0
ServiceFiles = Dict ServiceFile

-- `Path.home()` and `sys.executable`
pub record Machine : Type 0 where
  pub home : String
  pub executable : String

abbrev pub daemon_token_env_var : String
daemon_token_env_var = "CLAW_MSG_DAEMON_TOKEN"

unfoldable pub daemon_env_path : Machine → String
daemon_env_path m = m.home ++ "/.claw-msg/daemon-env"

-- 0o600
abbrev pub owner_only : ℕ
owner_only = 384

unfoldable pub write_daemon_env : Machine → String → ServiceFiles → ServiceFiles
write_daemon_env m token files =
    put files (daemon_env_path m)
      (record { lines = (daemon_token_env_var ++ ("=" ++ token)) ∷ []; mode = some owner_only })

unfoldable pub generate_systemd_unit : Machine → String → String → List String
generate_systemd_unit m broker_url webhook_url =
    "[Unit]"
    ∷ "Description=claw-msg daemon"
    ∷ "After=network.target"
    ∷ ""
    ∷ "[Service]"
    ∷ "Type=simple"
    ∷ ("EnvironmentFile=" ++ daemon_env_path m)
    ∷ ("ExecStart="
        ++ (m.executable
            ++ (" -m claw_msg.cli.main daemon --broker "
                ++ (broker_url ++ (" --webhook " ++ webhook_url)))))
    ∷ "Restart=always"
    ∷ "RestartSec=5"
    ∷ ""
    ∷ "[Install]"
    ∷ "WantedBy=default.target"
    ∷ []

abbrev string_line : String → String
string_line s = "        <string>" ++ (s ++ "</string>")

-- The texts stand in the XML as they are.
unfoldable pub generate_launchd_plist : Machine → String → String → String → List String
generate_launchd_plist m broker_url token webhook_url =
    "<?xml version=\"1.0\" encoding=\"UTF-8\"?>"
    ∷ "<!DOCTYPE plist PUBLIC \"-//Apple//DTD PLIST 1.0//EN\" \"http://www.apple.com/DTDs/PropertyList-1.0.dtd\">"
    ∷ "<plist version=\"1.0\">"
    ∷ "<dict>"
    ∷ "    <key>Label</key>"
    ∷ "    <string>com.claw-msg.daemon</string>"
    ∷ "    <key>ProgramArguments</key>"
    ∷ "    <array>"
    ∷ string_line m.executable
    ∷ string_line "-m"
    ∷ string_line "claw_msg.cli.main"
    ∷ string_line "daemon"
    ∷ string_line "--broker"
    ∷ string_line broker_url
    ∷ string_line "--webhook"
    ∷ string_line webhook_url
    ∷ "    </array>"
    ∷ "    <key>EnvironmentVariables</key>"
    ∷ "    <dict>"
    ∷ ("        <key>" ++ (daemon_token_env_var ++ "</key>"))
    ∷ string_line token
    ∷ "    </dict>"
    ∷ "    <key>RunAtLoad</key>"
    ∷ "    <true/>"
    ∷ "    <key>KeepAlive</key>"
    ∷ "    <true/>"
    ∷ "</dict>"
    ∷ "</plist>"
    ∷ []

abbrev systemd_path : Machine → String
systemd_path m = m.home ++ "/.config/systemd/user/claw-msg-daemon.service"

abbrev launchd_path : Machine → String
launchd_path m = m.home ++ "/Library/LaunchAgents/com.claw-msg.daemon.plist"

-- `write_text`, on a file that is new: the mode is left to the system.
abbrev write_text : String → List String → ServiceFiles → ServiceFiles
write_text path lines files = put files path (record { lines = lines; mode = none })

unfoldable pub install_systemd_service :
    Machine → String → String → String → ServiceFiles → String × ServiceFiles
install_systemd_service m broker_url token webhook_url files = (
  systemd_path m,
  write_text (systemd_path m) (generate_systemd_unit m broker_url webhook_url)
      (write_daemon_env m token files),
)

unfoldable pub install_launchd_service :
    Machine → String → String → String → ServiceFiles → String × ServiceFiles
install_launchd_service m broker_url token webhook_url files = (
  launchd_path m,
  write_text (launchd_path m) (generate_launchd_plist m broker_url token webhook_url)
      (write_daemon_env m token files),
)
