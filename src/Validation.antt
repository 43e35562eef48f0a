-- ===== src/Validation.antt =====
-- The input validators of webClient/frontend/src/utils/validation.ts. `new URL(target).hostname` is
-- the browser's: a parameter, `none` where the constructor throws.
pub mod Patterns
pub mod Hostname
pub mod Domain
pub mod Address
pub mod Octet
pub mod Host
pub mod Blank
pub mod Targets
pub mod Ranges
pub mod Characters
pub mod Sanitize
pub mod Ports
use Prim.Native.String.{String}
use waddle_perf.Common.{
  ℕ, ◌+◌, map, List, [], ◌∷◌, Bool, true, false, not, ◌&&◌, ◌||◌, leb, ltb, ◌==◌, if◌then◌else◌,
  Option, none, some, length, take,
}
use waddle_perf.Regex.{Text, test}
use waddle_perf.Js.Strings.{
  codes, text_eq, is_empty, trim, starts_with, includes, split, first, remove,
}
use waddle_perf.Js.Number.{Number, is_nan, lt_nat, gt_nat, parse_int}
use Patterns.{hostname_regex, domain_regex, ip_regex}

-- `error` is left out by the source where the value is valid.
pub record ValidationResult : Type 0 where
  pub valid : Bool
  pub error : Option String

abbrev pub accept : ValidationResult
accept = record { valid = true; error = none }

abbrev pub reject : String → ValidationResult
reject e = record { valid = false; error = some e }

abbrev pub max_target_length : ℕ
max_target_length = 255

abbrev pub max_query_length : ℕ
max_query_length = 255

abbrev pub max_timeout_seconds : ℕ
max_timeout_seconds = 300

abbrev pub max_count : ℕ
max_count = 1000

abbrev pub min_port : ℕ
min_port = 1

abbrev pub max_port : ℕ
max_port = 65535

-- `!s || s.trim() === ''`
unfoldable pub is_blank : Text → Bool
is_blank s = is_empty s || is_empty (trim s)

-- The code unit by `String.prototype.toLowerCase`, on the ASCII that the pattern lets through.
abbrev pub to_lower : ℕ → ℕ
to_lower c = if leb b'A' c && leb c b'Z' then c + 32 else c

-- The condition whose block holds only a comment.
unfoldable pub is_internal : Text → Bool
is_internal host =
    let lower_host = map to_lower host in
    text_eq lower_host (codes "localhost")
    || text_eq lower_host (codes "0.0.0.0")
    || starts_with host (codes "127.")
    || starts_with host (codes "169.254.")
    || starts_with host (codes "10.")
    || starts_with host (codes "192.168.")

-- From the removal of the port on: `cleanTarget` is the target without its scheme.
unfoldable pub host_of : Text → Text
host_of clean = if includes clean (codes ":") then first (split b':' clean) else clean

unfoldable pub validate_host : Text → ValidationResult
validate_host host =
    if test ip_regex host
    then accept
    else if not (test hostname_regex host)
    then reject "Invalid hostname format"
    else if is_internal host
    then accept
    else accept

unfoldable pub validate_clean : Option Text → ValidationResult
validate_clean none = reject "Invalid URL format"
validate_clean (some clean) = validate_host (host_of clean)

unfoldable pub validate_target : (Text → Option Text) → Text → ValidationResult
validate_target url_hostname target =
    if is_blank target
    then reject "Target cannot be empty"
    else if ltb max_target_length (length target)
    then reject "Target exceeds maximum length of 255"
    else validate_clean (if includes target (codes "://") then url_hostname target else some target)

unfoldable pub validate_dns_query : Text → ValidationResult
validate_dns_query query =
    if is_blank query
    then reject "DNS query cannot be empty"
    else if ltb max_query_length (length query)
    then reject "Query exceeds maximum length of 255"
    else if not (test domain_regex query)
    then reject "Invalid domain name format"
    else accept

-- An argument of type `number | string`.
pub data Input : Type 0 where
  number : Number → Input
  string : Text → Input

abbrev pub to_number : Input → Number
to_number (number x) = x
to_number (string s) = parse_int s

unfoldable pub validate_port : Input → ValidationResult
validate_port port =
    let port_num = to_number port in
    if is_nan port_num
    then reject "Port must be a number"
    else if lt_nat port_num min_port || gt_nat port_num max_port
    then reject "Port must be between 1 and 65535"
    else accept

unfoldable pub validate_timeout : Input → ValidationResult
validate_timeout timeout =
    let timeout_num = to_number timeout in
    if is_nan timeout_num
    then reject "Timeout must be a number"
    else if lt_nat timeout_num 1
    then reject "Timeout must be at least 1 second"
    else if gt_nat timeout_num max_timeout_seconds
    then reject "Timeout cannot exceed 300 seconds"
    else accept

unfoldable pub validate_count : Input → ValidationResult
validate_count count =
    let count_num = to_number count in
    if is_nan count_num
    then reject "Count must be a number"
    else if lt_nat count_num 1
    then reject "Count must be at least 1"
    else if gt_nat count_num max_count
    then reject "Count cannot exceed 1000"
    else accept

-- `set.has(s)`
unfoldable pub has : List Text → Text → Bool
has [] s = false
has (t ∷ ts) s = text_eq t s || has ts s

abbrev pub valid_http_protocols : List Text
valid_http_protocols =
    codes "http1"
    ∷ codes "http/1.1"
    ∷ codes "http1.1"
    ∷ codes "http2"
    ∷ codes "http/2"
    ∷ codes "http3"
    ∷ codes "http/3"
    ∷ codes "HTTP/1.1"
    ∷ codes "HTTP/2"
    ∷ codes "HTTP/3"
    ∷ []

abbrev pub valid_tcp_protocols : List Text
valid_tcp_protocols =
    codes "raw"
    ∷ codes "raw_tcp"
    ∷ codes "Raw TCP"
    ∷ codes "tcp"
    ∷ codes "tls"
    ∷ codes "TLS"
    ∷ codes "ssh"
    ∷ codes "SSH"
    ∷ []

abbrev pub valid_udp_protocols : List Text
valid_udp_protocols =
    codes "dns" ∷ codes "DNS" ∷ codes "raw" ∷ codes "raw_udp" ∷ codes "Raw UDP" ∷ codes "udp" ∷ []

abbrev pub valid_icmp_protocols : List Text
valid_icmp_protocols = codes "ping" ∷ codes "traceroute" ∷ []

unfoldable pub validate_http_protocol : Text → ValidationResult
validate_http_protocol protocol =
    if is_blank protocol
    then accept
    else if not (has valid_http_protocols protocol)
    then reject "Invalid HTTP protocol"
    else accept

unfoldable pub validate_tcp_protocol : Text → ValidationResult
validate_tcp_protocol protocol =
    if is_blank protocol
    then accept
    else if not (has valid_tcp_protocols protocol)
    then reject "Invalid TCP protocol"
    else accept

unfoldable pub validate_udp_protocol : Text → ValidationResult
validate_udp_protocol protocol =
    if is_blank protocol
    then accept
    else if not (has valid_udp_protocols protocol)
    then reject "Invalid UDP protocol"
    else accept

unfoldable pub validate_icmp_protocol : Text → ValidationResult
validate_icmp_protocol protocol =
    if is_blank protocol
    then accept
    else if not (has valid_icmp_protocols protocol)
    then reject "Invalid ICMP protocol"
    else accept

-- `[\x00-\x08\x0B\x0C\x0E-\x1F\x7F]`
abbrev pub is_control : ℕ → Bool
is_control c = leb c 8 || c == 11 || c == 12 || (leb 14 c && leb c 31) || c == 127

unfoldable pub sanitize_string : Text → ℕ → Text
sanitize_string input max_length =
    let trimmed = trim input in
    let s = if ltb max_length (length trimmed) then take max_length trimmed else trimmed in
    remove is_control s
