-- ===== src/Service/HealthHttp.antt =====
-- atasks/commands/service.py, `_parse_health_http`: the address of the health endpoint. `int` is a
-- parameter, since Python reads digits of any script.
pub mod Laws
pub mod RoundTrip
pub mod Server
use atasks.Prelude.{
  ℕ, String, ◌<>◌, Bool, true, false, not, ◌&&◌, ◌||◌, Option, none, some, ◌==◌, leb, if◌then◌else◌,
}
use atasks.Prelude.Text.{strip, has, before, after, at_most_one, begins, tail}
use atasks.Errors.{refuse, Outcome, returned, raised, exception, value_error}

-- What `int` reads: the second is `-1 - n`.
pub data Integer : Type 0 where
  pos negsuc : ℕ → Integer

-- The host, the port and the path.
pub record Address : Type 0 where
  pub host : String
  pub port : ℕ
  pub path : String

abbrev pub is_forbidden : String → Bool
is_forbidden value = has b'?' value || has b'#' value || has b'@' value

-- The host, and the text of the port, if any.
abbrev pub remainder_port : String → String → Outcome (String × String)
remainder_port host remainder =
    if remainder == ""
    then returned (host, "80")
    else if begins b':' remainder
    then returned (host, tail remainder)
    else refuse "invalid IPv6 health HTTP address"

-- `address[1:closing]` and `address[closing + 1:]`.
abbrev pub bracketed : String → Outcome (String × String)
bracketed address =
    if has b']' address
    then remainder_port (tail (before b']' address)) (after b']' address)
    else refuse "IPv6 health HTTP host must end with ]"

unfoldable pub host_and_port : String → Outcome (String × String)
host_and_port address =
    if begins b'[' address
    then bracketed address
    else if at_most_one b':' address
    then returned
        (if has b':' address then (before b':' address, after b':' address) else (address, "80"))
    else refuse "IPv6 health HTTP host must be enclosed in []"

abbrev pub checked_port : Option Integer → Outcome ℕ
checked_port none = refuse "health HTTP port must be an integer"
checked_port (some (negsuc _)) = refuse "health HTTP port must be between 1 and 65535"
checked_port (some (pos port)) =
    if leb 1 port && leb port 65535
    then returned port
    else refuse "health HTTP port must be between 1 and 65535"

abbrev pub with_port : String → String → Outcome ℕ → Outcome Address
with_port host path (returned port) = returned (record { host = host; port = port; path = path })
with_port host path (raised e) = raised e

module _ (int : String → Option Integer) where
  abbrev pub with_host : String → Outcome (String × String) → Outcome Address
  with_host path (raised e) = raised e
  with_host path (returned (host, port_value)) =
      if host == ""
      then refuse "health HTTP address must include a host"
      else with_port host path (checked_port (int port_value))

  unfoldable pub parse_stripped : String → Outcome Address
  parse_stripped value =
      if value == "" || is_forbidden value
      then refuse "health HTTP address must be HOST[:PORT][/PATH]"
      else let address = before b'/' value in
        let path = if has b'/' value then "/" <> after b'/' value else "/" in
        if address == ""
        then refuse "health HTTP address must include a host"
        else with_host path (host_and_port address)

  -- `_parse_health_http`
  unfoldable pub parse_health_http : String → Outcome Address
  parse_health_http value = parse_stripped (strip value)
