-- ===== src/Transaction/Service/Keeps.antt =====
-- Actions of the transaction service that leave the table of facts as it is:
-- backend/internal/transaction/application/service.go over lawful ports.
use ai_portfolio_research_as.Prelude.{◌≡◌, refl, ◌∙◌, sym, ap, ℕ, Bool, List, Result, ok, err}
use ai_portfolio_research_as.Prelude.Time.{Instant}
use ai_portfolio_research_as.Prelude.Actions.{Action, next, bind-eq-ok, ◌>>=◌}
use ai_portfolio_research_as.Text.{Bytes}
use ai_portfolio_research_as.Platform.Audit.{AuditRecord, Action as AuditAction}
use ai_portfolio_research_as.Platform.Outbox.{Reference}
use ai_portfolio_research_as.Transaction.Value.{Uuid}
use ai_portfolio_research_as.Transaction.Service.{CommandInput}
use ai_portfolio_research_as.Transaction.Service.Ports.{Ports, Rows, IsLawful, Idempotency}
use ai_portfolio_research_as.Transaction.Service.Evidence.{
  service_now, next_id, next_transaction_id, append_audit_to, append_event_for,
}
use ai_portfolio_research_as.Transaction.Service.Guards.{resolve_command}
use ai_portfolio_research_as.Transaction.Service.Execute.{replay_result}

-- No outcome of the action changes the table.
abbrev pub Keeps : {S E A : Type 0} → Rows S → Action S E A → Type 0
Keeps {S} rows m = (s : S) → rows (m s).1 ≡ rows s

module _ {S : Type 0} (rows : Rows S) where
  next-Keeps :
      {E A B : Type 0} (f : A → Action S E B) (r : Result E A) (s : S)
      → ((a : A) → Keeps rows (f a))
      → rows (next f r s).1 ≡ rows s
  next-Keeps f (ok a) s h = h a s
  next-Keeps f (err e) s h = refl

  pub bind-Keeps :
      {E A B : Type 0} (m : Action S E A) (f : A → Action S E B)
      → Keeps rows m
      → ((a : A) → Keeps rows (f a))
      → Keeps rows (m >>= f)
  unfolding ◌>>=◌
  bind-Keeps m f k h s = next-Keeps f (m s).0 (m s).1 h ∙ k s

  -- The first step of a successful chain, if it keeps the table.
  pub kept-bind :
      {E A B : Type 0} (m : Action S E A) (f : A → Action S E B) (s s' : S) (b : B)
      → (m >>= f) s ≡ (ok b, s')
      → Keeps rows m
      → (a : A) × (t : S) × (rows t ≡ rows s) × (f a t ≡ (ok b, s'))
  kept-bind {E} {A} m f s s' b h k =
      let (a, t, e, rest) = bind-eq-ok m f s s' b h in
      (a, t, sym (ap (λ (x : Result E A × S). rows x.1) e) ∙ k s, rest)

module _ {S : Type 0} (ports : Ports S) (rows : Rows S) (law : IsLawful ports rows) where
  pub service_now-Keeps : Keeps rows (service_now ports)
  unfolding service_now
  service_now-Keeps s = law.now-rows s

  pub next_id-Keeps : Keeps rows (next_id ports)
  unfolding next_id
  next_id-Keeps s = law.new_id-rows s

  pub next_transaction_id-Keeps : Keeps rows (next_transaction_id ports)
  unfolding next_transaction_id
  next_transaction_id-Keeps = bind-Keeps rows (next_id ports) _ next_id-Keeps (λ id s. refl)

  pub append_audit_to-Keeps :
      (store : AuditRecord → Action S ℕ (Unit {0})) (principal p t c : Uuid) (correlation : Bytes)
      (action : AuditAction) (succeeded : Bool)
      → ((r : AuditRecord) → Keeps rows (store r))
      → Keeps rows (append_audit_to ports store principal p t c correlation action succeeded)
  unfolding append_audit_to
  append_audit_to-Keeps store principal p t c correlation action succeeded h =
      bind-Keeps rows (next_id ports) _ next_id-Keeps
        (λ id. bind-Keeps rows (service_now ports) _ service_now-Keeps (λ at s. h _ s))

  pub append_event_for-Keeps :
      (p : Uuid) (correlation event_type : Bytes) (references : List Reference)
      → Keeps rows (append_event_for ports p correlation event_type references)
  unfolding append_event_for
  append_event_for-Keeps p correlation event_type references =
      bind-Keeps rows (next_id ports) _ next_id-Keeps (λ id.
        bind-Keeps rows (service_now ports) _ service_now-Keeps (λ at s. law.append_event-rows _ s))

  pub resolve_command-Keeps :
      (principal : Uuid) (input : CommandInput) (now : Instant)
      → Keeps rows (resolve_command ports principal input now)
  unfolding resolve_command
  resolve_command-Keeps principal input now = bind-Keeps rows _ _ (λ s. refl) (λ snapshot s. refl)

  pub replay_result-Keeps :
      (principal p : Uuid) (correlation : Bytes) (digest : ℕ) (previous : Idempotency)
      → Keeps rows (replay_result ports principal p correlation digest previous)
  unfolding replay_result
  replay_result-Keeps principal p correlation digest previous =
      bind-Keeps rows _ _ (λ s. refl)
        (λ _.
          bind-Keeps rows _ _ (λ s. refl)
            (λ fact.
              bind-Keeps rows _ _ (λ s. refl)
                (λ facts.
                  bind-Keeps rows _ _
                    (append_audit_to-Keeps ports.append_audit principal p _ _ correlation _ _
                      law.append_audit-rows)
                    (λ _ s. refl))))
