-- ===== src/Transaction/Kind.antt =====
-- backend/internal/transaction/domain/kind.go. A `Kind` is a Go string; every text that is none of
-- the seven constants is `unknown`, since no code tells such texts apart.
use ai_portfolio_research_as.Prelude.{Bool, true, false, ◌||◌, ok, err, if◌then◌else◌}
use ai_portfolio_research_as.Text.{Bytes, codes, equal}
use ai_portfolio_research_as.Transaction.Errors.{Outcome, invalid_transaction_kind}

pub data Kind : Type 0 where
  buy sell dividend deposit withdrawal fee reversal unknown : Kind

pub Kind-discrete : Discrete Kind
Kind-discrete = hlevel

-- `Kind(value)`
unfoldable pub kind_of_text : Bytes → Kind
unfolding equal
kind_of_text value =
    if equal value (codes "BUY")
    then buy
    else if equal value (codes "SELL")
    then sell
    else if equal value (codes "DIVIDEND")
    then dividend
    else if equal value (codes "DEPOSIT")
    then deposit
    else if equal value (codes "WITHDRAWAL")
    then withdrawal
    else if equal value (codes "FEE")
    then fee
    else if equal value (codes "REVERSAL")
    then reversal
    else unknown

abbrev pub is_public_creatable : Kind → Bool
is_public_creatable reversal = false
is_public_creatable unknown = false
is_public_creatable _ = true

abbrev pub is_reversal : Kind → Bool
is_reversal reversal = true
is_reversal _ = false

-- `ParseKind` on the text of a kind
abbrev pub check_kind : Kind → Outcome Kind
check_kind kind =
    if is_public_creatable kind || is_reversal kind then ok kind else err invalid_transaction_kind

unfoldable pub parse_kind : Bytes → Outcome Kind
unfolding kind_of_text
parse_kind value = check_kind (kind_of_text value)
