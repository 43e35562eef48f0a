-- ===== src/Validation/Targets.antt =====
-- What `validateTarget` and `validateDNSQuery` of webClient/frontend/src/utils/validation.ts accept.
use waddle_perf.Common.{
  ◌≤◌, ◌≡◌, sym, subst, inl, inr, ◌↔◌, true, false, Option, some, arith, length, if◌then◌else◌,
  Bool-cases, Option-cases,
}
use waddle_perf.Regex.{Text, test}
use waddle_perf.Js.Strings.{codes, includes}
use waddle_perf.Validation.Patterns.{hostname_regex, ip_regex}
use waddle_perf.Validation.Hostname.{IsHostname, hostname_regex_iff}
use waddle_perf.Validation.Domain.{IsDomain, domain_regex_iff}
use waddle_perf.Validation.Blank.{HasText, is_blank_iff}
use waddle_perf.Validation.Host.{IsHostOf, host_of-IsHostOf, IsHostOf-eq}
use waddle_perf.Validation.Address.{ip_regex_iff, IsAddress-IsHostname}
use waddle_perf.Validation.{
  accept, reject, is_blank, host_of, is_internal, validate_host, validate_clean, validate_target,
  validate_dns_query,
}

-- The address test and the test for internal hosts change no answer.
validate_host-eq :
    (host : Text)
    → validate_host host
      ≡ (if test hostname_regex host then accept else reject "Invalid hostname format")
unfolding validate_host
validate_host-eq host = elim (Bool-cases (test ip_regex host)) [
  | inl ip ↦
      let name =
        (hostname_regex_iff host).1 (IsAddress-IsHostname host ((ip_regex_iff host).0 ip)) in
      rw (ip, name)
  | inr other ↦ elim (Bool-cases (test hostname_regex host)) [
    | inl name ↦ elim (Bool-cases (is_internal host)) [
      | inl internal ↦ rw (other, name, internal)
      | inr public ↦ rw (other, name, public)
    ]
    | inr name ↦ rw (other, name)
  ]
]

validate_host_iff : (host : Text) → ((validate_host host).valid ≡ true) ↔ IsHostname host
validate_host_iff host =
    let (to, from) = hostname_regex_iff host in
    let same = validate_host-eq host in
    (λ h. to (ground arith), λ h. let name = from h in ground arith)

-- The target without its scheme, where there is one that the browser can read.
abbrev pub clean_of : (Text → Option Text) → Text → Option Text
clean_of url_hostname target =
    if includes target (codes "://") then url_hostname target else some target

pub record IsTarget (url_hostname : Text → Option Text) (target : Text) : Type 0 where
  pub some_text : HasText target
  pub fits : length target ≤ 255
  pub clean : Text
  pub readable : clean_of url_hostname target ≡ some clean
  pub host : Text
  pub first_part : IsHostOf host clean
  pub name : IsHostname host

validate_target_sound :
    (url_hostname : Text → Option Text) (target : Text)
    → (validate_target url_hostname target).valid ≡ true
    → IsTarget url_hostname target
unfolding validate_target validate_clean
validate_target_sound url_hostname target h = elim (Option-cases (clean_of url_hostname target)) [
  | inl bad ↦ absurd (ground arith)
  | inr (clean, readable) ↦ record {
    some_text = (is_blank_iff target).0 (ground arith);
    fits = ground arith;
    clean = clean;
    readable = readable;
    host = host_of clean;
    first_part = host_of-IsHostOf clean;
    name = (validate_host_iff (host_of clean)).0 (ground arith);
  }
]

validate_target_complete :
    (url_hostname : Text → Option Text) (target : Text)
    → IsTarget url_hostname target
    → (validate_target url_hostname target).valid ≡ true
unfolding validate_target validate_clean
validate_target_complete url_hostname target h =
    let named = subst IsHostname (sym (IsHostOf-eq h.host h.clean h.first_part)) h.name in
    let valid = (validate_host_iff (host_of h.clean)).1 named in
    let b = (is_blank_iff target).1 h.some_text in
    let fits = h.fits in let readable = h.readable in ground arith

-- `validateTarget` accepts exactly: a target of at most 255 code units, one of which is no white space,
-- whose part behind the scheme (all of it, where there is no "://") is there and has a host name
-- before the first colon.
pub validate_target_iff :
    (url_hostname : Text → Option Text) (target : Text)
    → ((validate_target url_hostname target).valid ≡ true) ↔ IsTarget url_hostname target
validate_target_iff url_hostname target =
    (validate_target_sound url_hostname target, validate_target_complete url_hostname target)

-- `validateDNSQuery` accepts exactly the domain names of at most 255 code units that are not blank.
pub validate_dns_query_iff :
    (query : Text)
    → ((validate_dns_query query).valid ≡ true)
      ↔ ((is_blank query ≡ false) × (length query ≤ 255) × IsDomain query)
unfolding validate_dns_query
validate_dns_query_iff query =
    let (to, from) = domain_regex_iff query in
    (
      λ h. (ground arith, ground arith, to (ground arith)),
      λ (b, fits, d). let name = from d in ground arith,
    )
