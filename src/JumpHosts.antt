-- ===== src/JumpHosts.antt =====
-- ssh/jump_host_parser.rs: the host text of a jump host, and the connection parameters that it
-- resolves to. The variable `USER` of the environment is a parameter.
pub mod Parsed
use switch_configurator.Prelude.{
  ℕ, Option, none, some, Text, is_empty, or_option, unwrap_or, if◌then◌else◌,
}
use switch_configurator.Prelude.Str.{split_once, rsplit_once}
use switch_configurator.Prelude.Decimal.{parse_u16}
use switch_configurator.Models.SwitchConfig.{JumpHost, ResolvedJumpHost}
use switch_configurator.Config.Result.{Result, ok, err, ◌>>=◌, invalid_port, empty_hostname}

-- `user` and `host_port`
abbrev pub split_user : Text → Option (Text × Text) → Option Text × Text
split_user host none = (none, host)
split_user host (some (user, host_port)) = (some user, host_port)

abbrev pub parsed_port : Text → Text → Option ℕ → Result (Text × Option ℕ)
parsed_port hostname port_str none = err (invalid_port port_str)
parsed_port hostname port_str (some port) = ok (hostname, some port)

-- `hostname` and `port`
abbrev pub split_port : Text → Option (Text × Text) → Result (Text × Option ℕ)
split_port host_port none = ok (host_port, none)
split_port host_port (some (hostname, port_str)) =
    parsed_port hostname port_str (parse_u16 port_str)

abbrev pub parse_parts : Option Text × Text → Result (Option Text × Text × Option ℕ)
parse_parts (user, host_port) =
    split_port host_port (rsplit_once b':' host_port) >>= λ (hostname, port).
    if is_empty hostname then err empty_hostname else ok (user, hostname, port)

unfoldable pub parse_host_string : Text → Result (Option Text × Text × Option ℕ)
parse_host_string host = parse_parts (split_user host (split_once b'@' host))

unfoldable pub resolve_jump_host : Option Text → JumpHost → Text → Result ResolvedJumpHost
resolve_jump_host env_user jump_host target_username =
    parse_host_string jump_host.host >>= λ (embedded_user, hostname, embedded_port). ok record {
      hostname = hostname;
      port = unwrap_or (or_option jump_host.port embedded_port) 22;
      username =
          unwrap_or (or_option (or_option jump_host.username embedded_user) env_user)
            target_username;
      ssh_key_path = jump_host.ssh_key_path;
      password = jump_host.password;
    }
