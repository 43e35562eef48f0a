-- ===== src/Profile/Laws.antt =====
-- The calls that the page managerServer/frontend/src/pages/Profile.tsx makes.
use waddle_perf.Common.{
  at, ◌≤◌, List, [], ◌∷◌, ◌++◌, length, true, not, ◌==◌, ltb, Option, none, some, ◌≡◌, refl, sym,
  ap, ◌∙◌, arith, if_intro, All, All-append, inl, inr, Bool-cases, ◌<◌, ◌≢◌, ltb→lt,
}
use waddle_perf.Js.Strings.{text_eq, text_eq_iff}
use waddle_perf.Types.{User}
use waddle_perf.Profile.{
  Call, get_user, setup_mfa, verify_mfa, change_user_password, Reply, ok, failed, ProfileState,
  initial, load_user_profile, handle_setup_mfa, handle_verify_mfa, change_call,
  handle_change_password, copy_to_clipboard, receive, shown_user, is_shown, mfa_offered,
  has_api_key, Event, setup, verify, submit_password, copy_key, copy_secret, toggle_password,
  cancel_password, cancel_mfa, timeout, edit_code, edit_new, edit_confirm, replied, password_form,
  mfa_form, receive_at, step, run, mounted,
}

module _ (auth_user : Option User) where
  -- A call is for the user of the context, and a new password has eight code units.
  abbrev pub IsOwn : Call → Type 0
  IsOwn (get_user i) = (u : User) × (auth_user ≡ some u) × (u.id ≡ i)
  IsOwn (change_user_password i p) = (u : User) × (auth_user ≡ some u) × (u.id ≡ i) × (8 ≤ length p)
  IsOwn _ = Unit

  abbrev Own : ProfileState → Type 0
  Own s = All IsOwn s.sent

  IsOwn-one : (cs : List Call) (c : Call) → All IsOwn cs → IsOwn c → All IsOwn (cs ++ c ∷ [])
  IsOwn-one cs c h k = All-append IsOwn cs (c ∷ []) h (k, tt)

  load-Own :
      (o : Option User) (s : ProfileState) → o ≡ auth_user → Own s → Own (load_user_profile o s)
  unfolding load_user_profile
  load-Own none s e h = h
  load-Own (some u) s e h = IsOwn-one s.sent (get_user u.id) h (u, sym e, refl)

  receive-Own : (c : Call) (r : Reply) (s : ProfileState) → Own s → Own (receive auth_user c r s)
  unfolding receive
  receive-Own (get_user i) (ok b) s h = h
  receive-Own (get_user i) (failed e) s h = h
  receive-Own setup_mfa (ok b) s h = h
  receive-Own setup_mfa (failed e) s h = h
  receive-Own (verify_mfa code) (ok b) s h =
      load-Own auth_user (record s { success = _; show_mfa_setup = _; mfa_verify_code = _ }) refl h
  receive-Own (verify_mfa code) (failed e) s h = h
  receive-Own (change_user_password i p) (ok b) s h = h
  receive-Own (change_user_password i p) (failed e) s h = h

  receive_at-Own :
      (o : Option Call) (r : Reply) (s : ProfileState) → Own s → Own (receive_at auth_user o r s)
  receive_at-Own none r s h = h
  receive_at-Own (some c) r s h = receive-Own c r s h

  change_call-Own :
      (o : Option User) (s : ProfileState)
      → o ≡ auth_user
      → 8 ≤ length s.new_password
      → Own s
      → Own (change_call o s)
  change_call-Own none s e le h = h
  change_call-Own (some u) s e le h =
      IsOwn-one s.sent (change_user_password u.id s.new_password) h (u, sym e, refl, le)

  change-Own : (s : ProfileState) → Own s → Own (handle_change_password auth_user s)
  unfolding handle_change_password
  change-Own s h = elim (Bool-cases (ltb (length s.new_password) 8)) [
    | inl less ↦ if_intro Own (not (text_eq s.new_password s.confirm_password)) _ _ h (rw less h)
    | inr long ↦
        let le : 8 ≤ length s.new_password = ground arith in
        if_intro Own (not (text_eq s.new_password s.confirm_password)) _ _ h
          (rw long (change_call-Own auth_user (record s { error = _; success = _ }) refl le h))
  ]

  step-Own : (e : Event) (s : ProfileState) → Own s → Own (step auth_user e s)
  unfolding step handle_setup_mfa handle_verify_mfa copy_to_clipboard
  step-Own setup s h =
      if_intro Own (mfa_offered (shown_user s)) _ _ (IsOwn-one s.sent setup_mfa h tt) h
  step-Own verify s h =
      if_intro Own (mfa_form s) _ _ (IsOwn-one s.sent (verify_mfa s.mfa_verify_code) h tt) h
  step-Own submit_password s h = if_intro Own (password_form s) _ _ (change-Own s h) h
  step-Own copy_key s h = if_intro Own (has_api_key (shown_user s)) _ _ h h
  step-Own copy_secret s h = if_intro Own (mfa_form s) _ _ h h
  step-Own toggle_password s h = if_intro Own (is_shown (shown_user s)) _ _ h h
  step-Own cancel_password s h = if_intro Own (password_form s) _ _ h h
  step-Own cancel_mfa s h = if_intro Own (mfa_form s) _ _ h h
  step-Own timeout s h = if_intro Own (s.timers == 0) _ _ h h
  step-Own (edit_code v) s h = if_intro Own (mfa_form s) _ _ h h
  step-Own (edit_new v) s h = if_intro Own (password_form s) _ _ h h
  step-Own (edit_confirm v) s h = if_intro Own (password_form s) _ _ h h
  step-Own (replied i r) s h = receive_at-Own (at i s.sent) r s h

  run-Own : (es : List Event) (s : ProfileState) → Own s → Own (run auth_user es s)
  run-Own [] s h = h
  run-Own (e ∷ es) s h = run-Own es (step auth_user e s) (step-Own e s h)

  -- Whatever is clicked and typed and whatever the replies are, the page asks for the account and
  -- changes the password of the signed-in user only, and a new password that it sends has at least
  -- eight code units.
  pub run-IsOwn : (es : List Event) → All IsOwn (run auth_user es (mounted auth_user)).sent
  run-IsOwn es = run-Own es (mounted auth_user) (load-Own auth_user initial refl tt)

-- What the submission of the password form does: the call, or the message that says why not.
pub data Submitted (u : User) (s t : ProfileState) : Type 0 where
  differ :
      (s.new_password ≢ s.confirm_password)
      → t.error ≡ "Passwords do not match"
      → t.sent ≡ s.sent
      → Submitted u s t
  short :
      s.new_password ≡ s.confirm_password
      → length s.new_password < 8
      → t.error ≡ "Password must be at least 8 characters"
      → t.sent ≡ s.sent
      → Submitted u s t
  asked :
      s.new_password ≡ s.confirm_password
      → 8 ≤ length s.new_password
      → t.error ≡ ""
      → t.sent ≡ s.sent ++ change_user_password u.id s.new_password ∷ []
      → Submitted u s t

-- With a signed-in user, submitting the shown password form sends the new password if both fields hold
-- the same text of eight code units or more; otherwise nothing is sent, and the message says whether
-- they differ or are too short.
pub step-Submitted :
    (u : User) (s : ProfileState)
    → password_form s ≡ true
    → Submitted u s (step (some u) submit_password s)
unfolding step handle_change_password
step-Submitted u s h =
    let same_iff = text_eq_iff s.new_password s.confirm_password in
    elim (Bool-cases (text_eq s.new_password s.confirm_password)) [
      | inr apart ↦ rw (h, apart) (Submitted.differ (ground (arith, same_iff)) refl refl)
      | inl same ↦
          let equal : s.new_password ≡ s.confirm_password = same_iff.0 same in
          elim (Bool-cases (ltb (length s.new_password) 8)) [
            | inl less ↦ rw (h, same, less) (Submitted.short equal (ltb→lt _ _ less) refl refl)
            | inr long ↦ rw (h, same, long) (Submitted.asked equal (ground arith) refl refl)
          ]
    ]

step-none : (e : Event) → step none e initial ≡ initial
unfolding step
step-none setup = refl
step-none verify = refl
step-none submit_password = refl
step-none copy_key = refl
step-none copy_secret = refl
step-none toggle_password = refl
step-none cancel_password = refl
step-none cancel_mfa = refl
step-none timeout = refl
step-none (edit_code v) = refl
step-none (edit_new v) = refl
step-none (edit_confirm v) = refl
step-none (replied i r) = refl

-- Without a user in the context when the page is mounted, it makes no call and shows the spinner for
-- ever, whatever happens.
run-none : (es : List Event) → run none es (mounted none) ≡ initial
unfolding load_user_profile
run-none [] = refl
run-none (e ∷ es) = ap (run none es) (step-none e) ∙ run-none es
