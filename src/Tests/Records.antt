-- ===== src/Tests/Records.antt =====
-- Runs of backend/internal/identity/domain/user.go, asset/domain/asset.go and
-- platform/audit/audit.go and transaction/application/history.go.
use ai_portfolio_research_as.Prelude.{ℕ, [], ◌∷◌, length, ◌≤◌}
use ai_portfolio_research_as.Prelude.Int.{pos, pos_part}
use ai_portfolio_research_as.Transaction.History.{
  HistoryInput, History, list_history, page_of, attach, first_facts, next_position, bad_history,
  limit_of, list_history-length,
}
use ai_portfolio_research_as.Tests.Data.{bought, sold}
use ai_portfolio_research_as.Prelude.{◌≡◌, ◌≢◌, refl, some, none, ok, false}
use ai_portfolio_research_as.Prelude.Time.{zero_time}
use ai_portfolio_research_as.Text.{codes}
use ai_portfolio_research_as.Transaction.Value.{currency_usd}
use ai_portfolio_research_as.Identity.User.{User, enabled, new_user}
use ai_portfolio_research_as.Asset.{
  Asset, equity, rehydrate_asset, IsAsset, rehydrate_asset-IsAsset,
}
use ai_portfolio_research_as.Platform.Audit.{
  AuditRecord, create_success, success, info, unknown_action, unknown_severity, validate_record,
  result_of, validate_record_lem,
}
use ai_portfolio_research_as.Tests.Data.{monday, tuesday}

abbrev pub user : User
unfolding zero_time
user = record {
  id = 2;
  email = codes "a@b";
  password_hash = record { encoded = codes "argon2id" };
  status = enabled;
  created_at = monday;
  updated_at = tuesday;
  disabled_at = zero_time;
  has_disabled_at = false;
}

abbrev pub asset : Asset
asset = record {
  id = 7;
  symbol = codes "VTI";
  name = codes "Total Market";
  asset_type = equity;
  exchange = codes "NYSEARCA";
  currency = currency_usd;
  normalized_symbol = codes "VTI";
  normalized_exchange = codes "NYSEARCA";
  created_at = monday;
  updated_at = tuesday;
}

abbrev evidence : AuditRecord
evidence = record {
  event_id = 61;
  occurred_at = tuesday;
  action = create_success;
  result = success;
  severity = info;
  actor_user_id = some 2;
  correlation_id = codes "req-1";
  portfolio_id = some 1;
  transaction_id = some 11;
  correction_id = none;
}

-- The runs, computed.
runs :
    (new_user 2 (codes "a@b") (record { encoded = codes "argon2id" }) enabled monday tuesday none
      ≡ ok user)
    × (rehydrate_asset asset ≡ ok asset)
    × (validate_record evidence ≡ ok tt)
unfolding ai_portfolio_research_as.Asset.asset_type_of_text
    ai_portfolio_research_as.Asset.bad_asset_fields ai_portfolio_research_as.Asset.bad_crypto
    ai_portfolio_research_as.Asset.parse_asset_currency
    ai_portfolio_research_as.Asset.rehydrate_asset ai_portfolio_research_as.Asset.valid_display_name
    ai_portfolio_research_as.Asset.valid_trimmed_display
    ai_portfolio_research_as.Identity.User.account_status_of_text
    ai_portfolio_research_as.Identity.User.bad_disabling
    ai_portfolio_research_as.Identity.User.new_active_user
    ai_portfolio_research_as.Identity.User.new_user
    ai_portfolio_research_as.Platform.Audit.allowed_action
    ai_portfolio_research_as.Platform.Audit.allowed_action_result
    ai_portfolio_research_as.Platform.Audit.allowed_result
    ai_portfolio_research_as.Platform.Audit.allowed_severity
    ai_portfolio_research_as.Platform.Audit.result_of
    ai_portfolio_research_as.Platform.Audit.validate_record
    ai_portfolio_research_as.Platform.Outbox.all_bytes
    ai_portfolio_research_as.Platform.Outbox.all_names
    ai_portfolio_research_as.Platform.Outbox.is_name
    ai_portfolio_research_as.Platform.Outbox.matches_correlation_id
    ai_portfolio_research_as.Platform.Outbox.matches_event_type
    ai_portfolio_research_as.Platform.Outbox.validate_claim_request
    ai_portfolio_research_as.Platform.Outbox.validate_consumer_name
    ai_portfolio_research_as.Platform.Outbox.validate_event
    ai_portfolio_research_as.Platform.Outbox.validate_failure_code
    ai_portfolio_research_as.Platform.Outbox.validate_payload
    ai_portfolio_research_as.Platform.Outbox.validate_references
    ai_portfolio_research_as.Portfolio.Name.new_portfolio_name
    ai_portfolio_research_as.Portfolio.Name.trim_edge_whitespace
    ai_portfolio_research_as.Portfolio.Name.trim_end
    ai_portfolio_research_as.Portfolio.Name.trim_start
    ai_portfolio_research_as.Prelude.Time.zero_time ai_portfolio_research_as.Text.Utf8.rune_count
    ai_portfolio_research_as.Text.Utf8.valid_string ai_portfolio_research_as.Text.all_digits
    ai_portfolio_research_as.Text.equal ai_portfolio_research_as.Text.split
    ai_portfolio_research_as.Text.trim_right
runs = (refl, refl, refl)

read : rehydrate_asset asset ≡ ok asset
read = runs.1

validated : validate_record evidence ≡ ok tt
validated = runs.2

rehydrate_asset-IsAsset_example : (asset ≡ asset) × IsAsset asset
rehydrate_asset-IsAsset_example = rehydrate_asset-IsAsset asset asset read

validate_record_lem_example :
    (evidence.event_id ≢ 0)
    × (evidence.action ≢ unknown_action)
    × (evidence.result ≡ result_of evidence.action)
    × (evidence.severity ≢ unknown_severity)
    × (evidence.actor_user_id ≢ some 0)
    × (evidence.portfolio_id ≢ some 0)
    × (evidence.transaction_id ≢ some 0)
    × (evidence.correction_id ≢ some 0)
validate_record_lem_example = validate_record_lem evidence validated

abbrev request : HistoryInput
request = record {
  limit = pos 1;
  kind = none;
  since = some monday;
  until = some tuesday;
  include_reversals = none;
  behind = none;
}

abbrev page : History ℕ
page = record {
  records = (bought, 0) ∷ [];
  next = some (record { effective_at = monday; sequence = pos 11; id = 11 });
}

paged : list_history (ok tt) (λ _. ok (bought ∷ sold ∷ [])) (λ _. ok 0) request ≡ ok page
unfolding list_history page_of attach first_facts next_position bad_history zero_time
paged = refl

list_history-length_example :
    (bad_history request ≡ false)
    × (length page.records ≤ pos_part (limit_of request))
    × (length page.records ≤ 100)
list_history-length_example =
    list_history-length (ok tt) (λ _. ok (bought ∷ sold ∷ [])) (λ _. ok 0) request page paged
