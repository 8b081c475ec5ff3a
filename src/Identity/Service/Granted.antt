-- ===== src/Identity/Service/Granted.antt =====
-- To whom `Login` of backend/internal/identity/application/operations.go grants a session.
use ai_portfolio_research_as.Prelude.{
  ◌≡◌, refl, ◌∙◌, sym, ap, arith, ℕ, Bool, true, false, not, ◌||◌, if◌then◌else◌, Option, none,
  some, Result, ok, err,
}
use ai_portfolio_research_as.Prelude.Time.{Instant}
use ai_portfolio_research_as.Prelude.Actions.{bind-eq-ok, lift-eq-ok, pure-eq-ok}
use ai_portfolio_research_as.Text.{Bytes}
use ai_portfolio_research_as.Identity.User.{User}
use ai_portfolio_research_as.Identity.Service.{
  AuthError, PasswordVerification, CredentialsInput, RequestMetadata, SessionResult, safe_user,
  user_is_active,
}
use ai_portfolio_research_as.Identity.Service.Ports.{AuthPorts}
use ai_portfolio_research_as.Identity.Service.Access.{
  login, admit, accepted_user, login_failed, create_login_session, session_result, stored_hash,
}
use ai_portfolio_research_as.Identity.Service.Requests.{Client, prepare_request}
use ai_portfolio_research_as.Identity.Service.Steps.{then_err-Refuses}

module _ {S : Type 0} (ports : AuthPorts S) where
  create_login_session-user :
      (user : User) (metadata : RequestMetadata) (hash : Bytes) (now : Instant) (s s' : S)
      (r : SessionResult)
      → create_login_session ports user metadata hash now s ≡ (ok r, s')
      → r.user ≡ safe_user user
  unfolding create_login_session session_result
  create_login_session-user user metadata hash now s s' r h =
      let (_, s1, _, h1) = bind-eq-ok _ _ _ _ _ h in
      let (_, s2, _, h2) = bind-eq-ok _ _ _ _ _ h1 in
      let (_, s3, _, h3) = bind-eq-ok _ _ _ _ _ h2 in
      let (_, s4, _, h4) = bind-eq-ok _ _ _ _ _ h3 in
      let (_, s5, _, h5) = bind-eq-ok _ _ _ _ _ h4 in
      let (e, _) = pure-eq-ok _ s5 s' r h5 in ap (λ (x : SessionResult). x.user) (sym e)

  admit-some :
      (found : Result AuthError User) (key : ℕ) (input : CredentialsInput) (hash : Bytes)
      (now : Instant) (who : Option (User × PasswordVerification)) (s s' : S) (r : SessionResult)
      → admit ports found key input hash now who s ≡ (ok r, s')
      → (user : User) × (v : PasswordVerification) × (who ≡ some (user, v))
        × (r.user ≡ safe_user user)
  unfolding admit login_failed
  admit-some found key input hash now none s s' r h =
      let (_, s1, _, h1) = bind-eq-ok _ _ _ _ _ h in absurd (then_err-Refuses _ _ s1 s' r h1)
  admit-some found key input hash now (some (user, v)) s s' r h =
      let (_, s1, _, h1) = bind-eq-ok _ _ _ _ _ h in
      let (_, s2, _, h2) = bind-eq-ok _ _ _ _ _ h1 in
      (user, v, refl, create_login_session-user user input.metadata hash now s2 s' r h2)

  some_pair :
      {A B : Type 0} (a b : A) (c d : B)
      → ◌≡◌ {A = Option (A × B)} (some (a, c)) (some (b, d))
      → (a ≡ b) × (c ≡ d)
  some_pair a b c d h = (cc, cc)

  not_refused :
      {A : Type 0} (c : Bool) (a b : A)
      → ◌≡◌ {A = Option A} (if c then none else some a) (some b)
      → (c ≡ false) × (◌≡◌ {A = Option A} (some a) (some b))
  not_refused true a b h = cc
  not_refused false a b h = (refl, h)

  both_passed : (a b : Bool) → (not a || not b) ≡ false → (a ≡ true) × (b ≡ true)
  both_passed a b h = ground arith

  prepared-email :
      (raw : Bytes) (metadata : RequestMetadata) (client : Client)
      → prepare_request ports raw metadata ≡ ok client
      → ports.normalize_email raw ≡ ok client.email
  unfolding prepare_request
  prepared-email raw metadata client h = ground arith

  accepted_user-some :
      (found : Result AuthError User) (verification : Result ℕ PasswordVerification) (user : User)
      (v : PasswordVerification)
      → accepted_user found verification ≡ some (user, v)
      → (found ≡ ok user)
        × (verification ≡ ok v)
        × (v.verified ≡ true)
        × (user_is_active user ≡ true)
  unfolding accepted_user
  accepted_user-some (err e) verification user v h = cc
  accepted_user-some (ok u) (err e) user v h = cc
  accepted_user-some (ok u) (ok w) user v h =
      let (passed, same) =
        not_refused (not w.verified || not (user_is_active u)) (u, w) (user, v) h in
      let (who, check) = some_pair u user w v same in
      let (a, b) = both_passed w.verified (user_is_active u) passed in
      (ap ok who, ap ok check, rw⁻¹ check a, rw⁻¹ who b)

  -- A login that succeeds names a user who was found by the normalized email, whose stored hash
  -- the password was verified against, and who is active, and the answer shows that user.
  pub login-Verified :
      (input : CredentialsInput) (s s' : S) (r : SessionResult)
      → login ports input s ≡ (ok r, s')
      → (email : Bytes) × (t : S) × (user : User) × (v : PasswordVerification)
        × (ports.normalize_email input.email ≡ ok email)
        × (ports.find_email email t ≡ ok user)
        × (ports.verify_password input.password user.password_hash t ≡ ok v)
        × (v.verified ≡ true)
        × (user_is_active user ≡ true)
        × (r.user ≡ safe_user user)
  unfolding login stored_hash
  login-Verified input s s' r h =
      let (now, s1, _, h1) = bind-eq-ok _ _ _ _ _ h in
      let (client, s2, e2, h2) = bind-eq-ok _ _ _ _ _ h1 in
      let (_, s3, _, h3) = bind-eq-ok _ _ _ _ _ h2 in
      let (_, s4, _, h4) = bind-eq-ok _ _ _ _ _ h3 in
      let (key, s5, _, h5) = bind-eq-ok _ _ _ _ _ h4 in
      let (_, s6, _, h6) = bind-eq-ok _ _ _ _ _ h5 in
      let (found, s7, e7, h7) = bind-eq-ok _ _ _ _ _ h6 in
      let (verification, s8, e8, h8) = bind-eq-ok _ _ _ _ _ h7 in
      let (user, v, who, result) = admit-some found key input _ now _ s8 s' r h8 in
      let (client_made, _) = lift-eq-ok _ s1 s2 client e2 in
      let (found_is, at_s7) = pure-eq-ok _ s6 s7 found e7 in
      let (verification_is, _) = pure-eq-ok _ s7 s8 verification e8 in
      let (found_user, checked, right, active) = accepted_user-some found verification user v who in
      (
        client.email,
        s7,
        user,
        v,
        prepared-email input.email input.metadata client client_made,
        ap (ports.find_email client.email) (sym at_s7) ∙ found_is ∙ found_user,
        ap
              (λ (x : Result AuthError User).
                ports.verify_password input.password (stored_hash ports.dummy_hash x) s7)
              (sym found_user)
            ∙ verification_is
            ∙ checked,
        right,
        active,
        result,
      )
