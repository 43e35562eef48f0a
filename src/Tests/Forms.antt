-- ===== src/Tests/Forms.antt =====
-- Runs of webClient/frontend/src/components/TestForm.tsx at fixed inputs.
use waddle_perf.Common.{◌≡◌, refl, ◌↔◌, Option, none, some}
use waddle_perf.Regex.{Text, test}
use waddle_perf.Js.Strings.{codes, trim, includes, text_eq, is_space, split}
use waddle_perf.Js.Number.{gt_nat, is_nan, lt_nat, parse_int}
use waddle_perf.Validation.{
  is_blank, validate_target, validate_clean, validate_host, host_of, is_internal, has,
  validate_udp_protocol, validate_count, validate_dns_query, validate_port, validate_timeout,
  sanitize_string,
}
use waddle_perf.Validation.Patterns.{ip_regex, octet, hostname_regex, label, domain_regex}
use waddle_perf.Form.{
  udp, FormState, handle_submit, test_data, protocol_result, require, check_numbers, check_port,
  check_query,
}
use waddle_perf.Form.Submit.{IsSubmittable, handle_submit_iff}

abbrev browser : Text → Option Text
browser target = none

-- The DNS page with a server filled in.
abbrev dns : FormState
dns = record {
  test_type = udp;
  target = codes "a.io";
  port = codes "53";
  timeout = codes "30";
  count = codes "10";
  protocol_detail = codes "DNS";
  dns_query = codes "google.com";
  validation_error = "";
}

dns_sent : (handle_submit browser dns).1 ≡ some (test_data dns)
unfolding handle_submit require validate_target is_blank trim validate_clean includes validate_host
    test host_of ip_regex octet hostname_regex label is_internal text_eq protocol_result
    validate_udp_protocol check_numbers check_port check_query gt_nat is_nan lt_nat parse_int
    is_space split domain_regex has validate_count validate_dns_query validate_port validate_timeout
    test_data sanitize_string
dns_sent = refl

dns-IsSubmittable : IsSubmittable browser dns
dns-IsSubmittable = ((handle_submit_iff browser dns (test_data dns)).0 dns_sent).0

handle_submit_iff_example : ((handle_submit browser dns).1 ≡ some (test_data dns)) ↔ (
    IsSubmittable browser dns × (test_data dns ≡ test_data (record dns { validation_error = "" })))
handle_submit_iff_example = handle_submit_iff browser dns (test_data dns)
