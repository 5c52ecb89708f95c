-- ===== src/Config/Line/Spaces.antt =====
-- src/config.c: comments and white space in `config_read_line`.
use wireguard_tools.Config.System.{System}
