-- ===== src/Validation/Ports.antt =====
-- What stands behind the host in a target, which `validateTarget` of
-- webClient/frontend/src/utils/validation.ts cuts off before it looks.
use waddle_perf.Common.{
  ◌≤◌, ◌≡◌, refl, [], ◌∷◌, ◌++◌, true, false, ◌≢◌, inr, arith, length, All-map, Option,
}
use waddle_perf.Regex.{Text}
use waddle_perf.Js.Strings.{codes, includes, split}
use waddle_perf.Validation.{is_blank, validate_target}
use waddle_perf.Validation.Hostname.{IsHostname}
use waddle_perf.Validation.Characters.{
  IsNameChar, IsHostname-chars, name_char-IsNotSpace, trim-ne-nil,
}
use waddle_perf.Validation.Blank.{is_blank_iff}
use waddle_perf.Validation.Targets.{validate_target_iff}

hostname-not_blank : (h x : Text) → IsHostname h → is_blank (h ++ x) ≡ false
unfolding is_blank split
hostname-not_blank [] x i = let e = i.0.starts in cc
hostname-not_blank (c ∷ h) x i =
    trim-ne-nil c (h ++ x) (name_char-IsNotSpace c (IsHostname-chars (c ∷ h) i).0)

-- Whatever text follows a host name and a colon, `validateTarget` accepts the whole, as long as
-- the whole fits and does not hold "://".
validate_target-colon :
    (url_hostname : Text → Option Text) (name junk : Text)
    → IsHostname name
    → includes (name ++ b':' ∷ junk) (codes "://") ≡ false
    → length (name ++ b':' ∷ junk) ≤ 255
    → (validate_target url_hostname (name ++ b':' ∷ junk)).valid ≡ true
validate_target-colon url_hostname name junk h plain fits =
    let n =
      All-map IsNameChar (λ c. c ≢ b':') (λ c i. ground arith) name (IsHostname-chars name h) in
    (validate_target_iff url_hostname (name ++ b':' ∷ junk)).1 (record {
      some_text = (is_blank_iff (name ++ b':' ∷ junk)).0 (hostname-not_blank name (b':' ∷ junk) h);
      fits = fits;
      clean = name ++ b':' ∷ junk;
      readable = rw plain;
      host = name;
      first_part = record { no_colon = n; parted = inr (junk, refl) };
      name = h;
    })
