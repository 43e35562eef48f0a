-- ===== src/Validation/Address.antt =====
-- What IP_REGEX of webClient/frontend/src/utils/validation.ts accepts, said by numbers: four parts of
-- one to three digits, each at most 255.
use waddle_perf.Common.{
  ◌≡◌, refl, ap, ◌∙◌, ◌↔◌, List, [], ◌∷◌, ◌++◌, true, arith, length, All, All-map, append-nil,
  append_assoc,
}
use waddle_perf.Regex.{Text, cat, test}
use waddle_perf.Regex.Matching.{Matches, test_iff}
use waddle_perf.Js.Strings.{split}
use waddle_perf.Validation.Patterns.{dot, octet, ip_regex}
use waddle_perf.Validation.Hostname.{IsLabel, IsHostname, is_dot, split_none, split_some}
use waddle_perf.Js.Splitting.{join, join-split}
use waddle_perf.Validation.Octet.{
  IsOctet, octet_sound, octet_complete, octet-IsNotDot, octet-IsLabel,
}

abbrev pub IsAddress : Text → Type 0
IsAddress w = (length (split b'.' w) ≡ 4) × All IsOctet (split b'.' w)

-- The part up to and with one dot.
octet-dot : (w : Text) → Matches (cat octet dot) w → (a : Text) × IsOctet a × (w ≡ a ++ b'.' ∷ [])
octet-dot w (a, p, e, ma, mp) = (a, octet_sound a ma, e ∙ ap (λ t. a ++ t) (is_dot p mp))

split_octet :
    (g a rest : Text)
    → IsOctet a
    → g ≡ a ++ b'.' ∷ []
    → split b'.' (g ++ rest) ≡ a ∷ split b'.' rest
split_octet g a rest h e =
    rw (e, append_assoc a (b'.' ∷ []) rest) (split_some a rest (octet-IsNotDot a h))

ip_sound : (w : Text) → Matches ip_regex w → IsAddress w
unfolding ip_regex
ip_sound w (u, d, e, (g, u', eu, mg, (h, u'', eh, mh, (k, z, ek, mk, ez))), md) =
    let (a, oa, ea) = octet-dot g mg in
    let (b, ob, eb) = octet-dot h mh in
    let (c, oc, ec) = octet-dot k mk in
    let od = octet_sound d md in
    let whole : w ≡ g ++ (h ++ (k ++ d)) =
      rw (e, eu, eh, ek, ez) (simp (append_assoc, append-nil)) in
    let parts : split b'.' w ≡ a ∷ b ∷ c ∷ d ∷ [] = rw (
      whole,
      split_octet g a (h ++ (k ++ d)) oa ea,
      split_octet h b (k ++ d) ob eb,
      split_octet k c d oc ec,
      split_none d (octet-IsNotDot d od),
    ) in
    rw parts (refl, (oa, (ob, (oc, (od, tt)))))

four_octets : (ps : List Text) → length ps ≡ 4 → All IsOctet ps → Matches ip_regex (join b'.' ps)
unfolding ip_regex
four_octets [] e h = absurd (omega arith)
four_octets (a ∷ []) e h = absurd (omega arith)
four_octets (a ∷ b ∷ []) e h = absurd (omega arith)
four_octets (a ∷ b ∷ c ∷ []) e h = absurd (omega arith)
four_octets (a ∷ b ∷ c ∷ d ∷ []) e (oa, (ob, (oc, (od, _)))) =
    let dotted = λ (t : Text). t ++ b'.' ∷ [] in
    let with_dot : (t : Text) → IsOctet t → Matches (cat octet dot) (dotted t) =
      λ t h. (t, b'.' ∷ [], refl, octet_complete t h, (b'.', refl, refl)) in
    (
      dotted a ++ (dotted b ++ (dotted c ++ [])),
      d,
      simp (append_assoc, append-nil),
      (
        dotted a,
        dotted b ++ (dotted c ++ []),
        refl,
        with_dot a oa,
        (dotted b, dotted c ++ [], refl, with_dot b ob, (dotted c, [], refl, with_dot c oc, refl)),
      ),
      octet_complete d od,
    )
four_octets (a ∷ b ∷ c ∷ d ∷ x ∷ ps) e h = absurd (omega arith)

-- IP_REGEX accepts exactly four parts of one to three digits, each at most 255, joined by dots.
pub ip_regex_iff : (w : Text) → (test ip_regex w ≡ true) ↔ IsAddress w
ip_regex_iff w =
    let (to, from) = test_iff ip_regex w in
    (
      λ h. ip_sound w (to h),
      λ h. from (rw (join-split b'.' w) at (four_octets (split b'.' w) h.0 h.1)),
    )

-- Every address is a host name too.
pub IsAddress-IsHostname : (w : Text) → IsAddress w → IsHostname w
IsAddress-IsHostname w h = All-map IsOctet IsLabel octet-IsLabel (split b'.' w) h.1
