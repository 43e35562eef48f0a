-- ===== src/Tests/Validators.antt =====
-- Runs of webClient/frontend/src/utils/validation.ts at fixed inputs.
use waddle_perf.Common.{◌≡◌, refl, ◌↔◌, true, Option, none, some, arith, if◌then◌else◌}
use waddle_perf.Regex.{Text, test}
use waddle_perf.Js.Strings.{codes, is_space, text_eq, includes, split, trim}
use waddle_perf.Js.Number.{is_nan, lt_nat, gt_nat, parse_int}
use waddle_perf.Validation.{
  accept, reject, string, is_blank, validate_clean, validate_host, validate_target, validate_port,
  validate_timeout, validate_count, host_of, is_internal,
}
use waddle_perf.Validation.Patterns.{label, octet, hostname_regex, ip_regex}
use waddle_perf.Validation.Hostname.{IsHostname, hostname_regex_iff}
use waddle_perf.Validation.Targets.{IsTarget, validate_target_iff}
use waddle_perf.Validation.Ranges.{Between, validate_numbers_iff}

-- A browser that reads "https://a.io/x" and nothing else.
abbrev browser : Text → Option Text
browser target = if includes target (codes "https://a.io/x") then some (codes "a.io") else none

target_runs :
    (validate_target browser (codes "example.com") ≡ accept)
    × (validate_target browser (codes "https://a.io/x") ≡ accept)
    × (validate_target browser (codes "http://b c") ≡ reject "Invalid URL format")
    × (validate_target browser (codes "256.1.1.1") ≡ accept)
    × (validate_target browser (codes "-a.io") ≡ reject "Invalid hostname format")
    × (validate_target browser (codes "  ") ≡ reject "Target cannot be empty")
unfolding validate_target validate_host host_of is_blank test hostname_regex ip_regex split trim
    includes is_internal validate_clean octet label text_eq
target_runs = (refl, refl, refl, refl, refl, refl)

number_runs :
    (validate_port (string (codes " 443x")) ≡ accept)
    × (validate_port (string (codes "65536")) ≡ reject "Port must be between 1 and 65535")
    × (validate_timeout (string (codes "-5")) ≡ reject "Timeout must be at least 1 second")
    × (validate_count (string (codes "ten")) ≡ reject "Count must be a number")
unfolding validate_port validate_timeout validate_count parse_int is_nan is_space lt_nat gt_nat
number_runs = (refl, refl, refl, refl)

abbrev site : Text
site = codes "example.com"

site-IsHostname : IsHostname site
unfolding split
site-IsHostname = (
  record {
    chars = (refl, (refl, (refl, (refl, (refl, (refl, (refl, tt)))))));
    short = omega arith;
    starts = refl;
    ends = refl;
  },
  (
    record { chars = (refl, (refl, (refl, tt))); short = omega arith; starts = refl; ends = refl },
    tt,
  ),
)

hostname_regex_iff_example : (test hostname_regex site ≡ true) ↔ IsHostname site
hostname_regex_iff_example = hostname_regex_iff site

validate_target_iff_example : ((validate_target browser site).valid ≡ true) ↔ IsTarget browser site
validate_target_iff_example = validate_target_iff browser site

validate_numbers_iff_example :
    (((validate_port (string (codes "53"))).valid ≡ true)
      ↔ Between 1 65535 (parse_int (codes "53")))
    × (((validate_timeout (string (codes "53"))).valid ≡ true)
        ↔ Between 1 300 (parse_int (codes "53")))
    × (((validate_count (string (codes "53"))).valid ≡ true)
        ↔ Between 1 1000 (parse_int (codes "53")))
validate_numbers_iff_example = validate_numbers_iff (string (codes "53"))
