-- ===== src/Validation/Domain.antt =====
-- What DOMAIN_REGEX of webClient/frontend/src/utils/validation.ts accepts: a host name that may end
-- in a dot.
use waddle_perf.Common.{
  ◌≡◌, refl, sym, ap, ◌∙◌, ◌⊎◌, inl, inr, ◌↔◌, [], ◌∷◌, ◌++◌, true, append-nil, append_assoc,
}
use waddle_perf.Regex.{Text, opt, test}
use waddle_perf.Regex.Matching.{Matches, test_iff}
use waddle_perf.Validation.Patterns.{dot, hostname_regex, domain_regex}
use waddle_perf.Validation.Hostname.{IsHostname, is_dot, IsHostname-sound, hostname_complete}

abbrev pub IsDomain : Text → Type 0
IsDomain w = (v : Text) × IsHostname v × ((w ≡ v) ⊎ (w ≡ v ++ b'.' ∷ []))

IsDomain-sound : (w : Text) → Matches domain_regex w → IsDomain w
unfolding domain_regex hostname_regex
IsDomain-sound w (u, v, e, l, (x, y, ev, s, inl ey)) = (
  u ++ x,
  IsHostname-sound (u ++ x) (u, x, refl, l, s),
  inl (e ∙ ap (λ t. u ++ t) (ev ∙ ap (λ t. x ++ t) ey ∙ append-nil x)),
)
IsDomain-sound w (u, v, e, l, (x, y, ev, s, inr d)) = (
  u ++ x,
  IsHostname-sound (u ++ x) (u, x, refl, l, s),
  inr (e ∙ ap (λ t. u ++ t) (ev ∙ ap (λ t. x ++ t) (is_dot y d)) ∙ sym (append_assoc u x _)),
)

domain_of_hostname :
    (w v y : Text)
    → w ≡ v ++ y
    → Matches hostname_regex v
    → Matches (opt dot) y
    → Matches domain_regex w
unfolding domain_regex hostname_regex
domain_of_hostname w v y e (a, b, eb, l, s) m =
    (a, b ++ y, e ∙ ap (λ t. t ++ y) eb ∙ append_assoc a b y, l, (b, y, refl, s, m))

domain_complete : (w : Text) → IsDomain w → Matches domain_regex w
domain_complete w (v, h, inl e) =
    domain_of_hostname w v [] (e ∙ sym (append-nil v)) (hostname_complete v h) (inl refl)
domain_complete w (v, h, inr e) =
    domain_of_hostname w v (b'.' ∷ []) e (hostname_complete v h) (inr (b'.', refl, refl))

-- DOMAIN_REGEX accepts exactly the host names, and the host names with one dot behind them.
pub domain_regex_iff : (w : Text) → (test domain_regex w ≡ true) ↔ IsDomain w
domain_regex_iff w =
    let (to, from) = test_iff domain_regex w in
    (λ h. IsDomain-sound w (to h), λ h. from (domain_complete w h))
