-- ===== src/Form/Reach.antt =====
-- The states that a user can bring the form of webClient/frontend/src/components/TestForm.tsx to: by
-- the buttons, by the controls that are on the page and enabled, and by the submit button.
use Prim.Native.String.{String}
use text.Mathlib.Text.{◌==◌ as str_eq}
use waddle_perf.Common.{
  ◌≡◌, refl, sym, ap, subst, All, ◌⊎◌, inl, inr, List, [], ◌∷◌, Bool, true, false, not, ◌&&◌, ◌||◌,
  arith, Option, none, some, Bool-cases, Option-cases, if◌then◌else◌,
}
use waddle_perf.Regex.{Text}
use waddle_perf.Js.Strings.{codes, text_eq, text_eq_iff, is_empty, trim, is_space}
use waddle_perf.Js.Number.{Number, parse_int}
use waddle_perf.Validation.{
  has, is_blank, validate_http_protocol, validate_tcp_protocol, validate_udp_protocol,
  validate_icmp_protocol,
}
use waddle_perf.Validation.Ranges.{whole}
use waddle_perf.Form.{
  TestType, http, tcp, udp, icmp, FormState, initial, protocol_options, handle_test_type_change,
  TestData, Submission, protocol_result, test_data, handle_submit,
}
use waddle_perf.Form.View.{Control, view}
use waddle_perf.Form.Submit.{handle_submit_iff, handle_submit_complete}
use waddle_perf.Form.Refuse.{handle_submit-IsRefused}

-- Whether the control is on the page and enabled; and whether it is, and offers the option.
abbrev pub can_edit : String → List Control → Bool
can_edit id [] = false
can_edit id (c ∷ cs) = (str_eq c.id id && not c.disabled) || can_edit id cs

abbrev pub offers : String → Text → List Control → Bool
offers id x [] = false
offers id x (c ∷ cs) = (str_eq c.id id && not c.disabled && has c.options x) || offers id x cs

module _ (url_hostname : Text → Option Text) where
  -- One action of the user, while the page shows a running test or none.
  pub data Step (s : FormState) : FormState → Type 0 where
    change_type : (t : TestType) → Step s (handle_test_type_change t s)
    edit_target :
        (running : Bool) (x : Text)
        → can_edit "target" (view s running).controls ≡ true
        → Step s (record s { target = x })
    edit_port :
        (running : Bool) (x : Text)
        → can_edit "port" (view s running).controls ≡ true
        → Step s (record s { port = x })
    edit_timeout : (x : Text) → Step s (record s { timeout = x })
    edit_count : (x : Text) → Step s (record s { count = x })
    edit_query :
        (running : Bool) (x : Text)
        → can_edit "dns-query" (view s running).controls ≡ true
        → Step s (record s { dns_query = x })
    choose_protocol :
        (running : Bool) (x : Text)
        → offers "protocol-detail" x (view s running).controls ≡ true
        → Step s (record s { protocol_detail = x })
    submit : Step s (handle_submit url_hostname s).0

  pub data Reach : FormState → Type 0 where
    start : Reach initial
    next : {s t : FormState} → Reach s → Step s t → Reach t

-- The protocol and the port that belong to a test type.
abbrev pub IsConsistent : TestType → Text → Text → Type 0
IsConsistent http p q = has ([] ∷ protocol_options http) p ≡ true
IsConsistent tcp p q = has ([] ∷ protocol_options tcp) p ≡ true
IsConsistent udp p q = (p ≡ codes "DNS") × (q ≡ codes "53")
IsConsistent icmp p q = (p ≡ []) × (q ≡ [])

abbrev pub StateIsConsistent : FormState → Type 0
StateIsConsistent s = IsConsistent s.test_type s.protocol_detail s.port

change-IsConsistent :
    (t : TestType) (s : FormState) → StateIsConsistent (handle_test_type_change t s)
unfolding handle_test_type_change has text_eq
change-IsConsistent http s = refl
change-IsConsistent tcp s = refl
change-IsConsistent udp s = (refl, refl)
change-IsConsistent icmp s = (refl, refl)

-- Only the TCP and HTTP pages let the port be changed.
edit_port-IsConsistent :
    (t : TestType) (s : FormState) (running : Bool) (p q x : Text)
    → can_edit "port" (view (record s { test_type = t }) running).controls ≡ true
    → IsConsistent t p q
    → IsConsistent t p x
unfolding view
edit_port-IsConsistent http s running p q x h c = c
edit_port-IsConsistent tcp s running p q x h c = c
edit_port-IsConsistent udp s running p q x h c = cc
edit_port-IsConsistent icmp s running p q x h c = cc

-- Only the TCP and HTTP pages offer a protocol, and they offer their own.
choose-IsConsistent :
    (t : TestType) (s : FormState) (running : Bool) (q x : Text)
    → offers "protocol-detail" x (view (record s { test_type = t }) running).controls ≡ true
    → IsConsistent t x q
unfolding view
choose-IsConsistent http s running q x h = ground arith
choose-IsConsistent tcp s running q x h = ground arith
choose-IsConsistent udp s running q x h = cc
choose-IsConsistent icmp s running q x h = cc

submit_state :
    (url_hostname : Text → Option Text) (s : FormState)
    → (e : String) × ((handle_submit url_hostname s).0 ≡ record s { validation_error = e })
submit_state url_hostname s = elim (Option-cases (handle_submit url_hostname s).1) [
  | inl n ↦
      let (e, ne, same) = handle_submit-IsRefused url_hostname s n in
      (e, ap (λ (x : Submission). x.0) same)
  | inr (d, sent) ↦
      let (ok, same) = (handle_submit_iff url_hostname s d).0 sent in
      ("", ap (λ (x : Submission). x.0) (handle_submit_complete url_hostname s ok))
]

Step-IsConsistent :
    (url_hostname : Text → Option Text) (s t : FormState)
    → Step url_hostname s t
    → StateIsConsistent s
    → StateIsConsistent t
Step-IsConsistent url_hostname s _ (change_type t) c = change-IsConsistent t s
Step-IsConsistent url_hostname s _ (edit_target running x h) c = c
Step-IsConsistent url_hostname s _ (edit_port running x h) c =
    edit_port-IsConsistent s.test_type s running s.protocol_detail s.port x h c
Step-IsConsistent url_hostname s _ (edit_timeout x) c = c
Step-IsConsistent url_hostname s _ (edit_count x) c = c
Step-IsConsistent url_hostname s _ (edit_query running x h) c = c
Step-IsConsistent url_hostname s _ (choose_protocol running x h) c =
    choose-IsConsistent s.test_type s running s.port x h
Step-IsConsistent url_hostname s _ submit c =
    let (e, same) = submit_state url_hostname s in subst StateIsConsistent (sym same) c

Reach-IsConsistent :
    (url_hostname : Text → Option Text) (s : FormState) → Reach url_hostname s → StateIsConsistent s
unfolding has text_eq
Reach-IsConsistent url_hostname _ start = refl
Reach-IsConsistent url_hostname _ (next {s} {t} r st) =
    Step-IsConsistent url_hostname s t st (Reach-IsConsistent url_hostname s r)

has_cases :
    (t : Text) (ts : List Text) (p : Text) → has (t ∷ ts) p ≡ true → (p ≡ t) ⊎ (has ts p ≡ true)
unfolding has
has_cases t ts p h = elim (Bool-cases (text_eq t p)) [
  | inl e ↦ inl (sym ((text_eq_iff t p).0 e))
  | inr e ↦ inr (rw e at h)
]

module _ (valid : Text → Bool) where
  -- What holds of each text of a list holds of what the list has.
  has-All :
      (ts : List Text) (p : Text) → All (λ t. valid t ≡ true) ts → has ts p ≡ true → valid p ≡ true
  unfolding has
  has-All [] p a h = cc
  has-All (t ∷ ts) p (v, a) h = elim (has_cases t ts p h) [
    | inl e ↦ rw e v
    | inr m ↦ has-All ts p a m
  ]

IsConsistent-valid :
    (t : TestType) (p q : Text) → IsConsistent t p q → (protocol_result t p).valid ≡ true
unfolding protocol_result validate_http_protocol validate_tcp_protocol validate_udp_protocol
    validate_icmp_protocol has text_eq is_blank trim
IsConsistent-valid http p q c =
    has-All (λ x. (validate_http_protocol x).valid) ([] ∷ protocol_options http) p
      (refl, (refl, (refl, (refl, tt)))) c
IsConsistent-valid tcp p q c =
    has-All (λ x. (validate_tcp_protocol x).valid) ([] ∷ protocol_options tcp) p
      (refl, (refl, (refl, (refl, tt)))) c
IsConsistent-valid udp p q c = rw c.0
IsConsistent-valid icmp p q c = rw c.0

-- No state that a user can reach is refused for its protocol.
Reach-protocol_valid :
    (url_hostname : Text → Option Text) (s : FormState)
    → Reach url_hostname s
    → (protocol_result s.test_type s.protocol_detail).valid ≡ true
Reach-protocol_valid url_hostname s r =
    IsConsistent-valid s.test_type s.protocol_detail s.port (Reach-IsConsistent url_hostname s r)

abbrev pub PortFits : TestType → Option Number → Type 0
PortFits udp port = port ≡ some (whole 53)
PortFits icmp port = port ≡ none
PortFits _ port = Unit

data_port :
    (t : TestType) (p q : Text)
    → IsConsistent t p q
    → PortFits t (if is_empty q then none else some (parse_int q))
unfolding parse_int is_space
data_port http p q c = tt
data_port tcp p q c = tt
data_port udp p q c = rw c.1
data_port icmp p q c = rw c.1

-- From a state that a user can reach, a UDP test is sent with port 53, and an ICMP test with no port.
pub Reach-PortFits :
    (url_hostname : Text → Option Text) (s : FormState) (d : TestData)
    → Reach url_hostname s
    → (handle_submit url_hostname s).1 ≡ some d
    → PortFits d.test_type d.port
unfolding test_data
Reach-PortFits url_hostname s d r sent =
    let (ok, same) = (handle_submit_iff url_hostname s d).0 sent in
    subst (λ (x : TestData). PortFits x.test_type x.port) (sym same)
      (data_port s.test_type s.protocol_detail s.port (Reach-IsConsistent url_hostname s r))
