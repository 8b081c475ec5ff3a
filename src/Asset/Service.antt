-- ===== src/Asset/Service.antt =====
-- backend/internal/asset/application/service.go and repository.go: reads of the catalog of assets,
-- over the repository. A principal is its user identifier, 0 when nobody is authenticated.
pub mod Pages
use mathlib.Core.Path.{subst}
use ai_portfolio_research_as.Prelude.{
  ◌≡◌, ◌≢◌, ◌≤◌, refl, ◌∙◌, sym, ap, arith, ℕ, zero, suc, Bool, true, false, not, ◌&&◌, ◌||◌, List,
  [], ◌∷◌, ◌++◌, Option, none, some, Result, ok, err, ◌>>=◌, ◌>>◌, >>=-eq-ok, fail_if, is_ok, ltb,
  length, if◌then◌else◌,
}
use ai_portfolio_research_as.Prelude.Int.{ℤ, pos, negsuc, pos_part, ◌+ℤ◌, ltb_ℤ}
use ai_portfolio_research_as.Text.{Bytes, is_empty}
use ai_portfolio_research_as.Text.Utf8.{valid_string, rune_count}
use ai_portfolio_research_as.Transaction.Value.{Uuid, is_zero}
use ai_portfolio_research_as.Asset.{Asset, AssetType, check_asset_type}

-- `catalog_failure` is an error of the repository, with its number.
pub data CatalogError : Type 0 where
  unauthenticated invalid_asset_input : CatalogError
  catalog_failure : ℕ → CatalogError

pub record CursorPosition : Type 0 where
  pub symbol : Bytes
  pub exchange : Bytes
  pub asset_id : Uuid

pub record SearchInput : Type 0 where
  pub search : Bytes
  pub has_search : Bool
  pub asset_type : Option AssetType
  pub cursor : Option CursorPosition
  pub limit : ℤ

-- `SearchQuery`, whose limit is one more than that of the input
pub record SearchQuery : Type 0 where
  pub search : Bytes
  pub has_search : Bool
  pub asset_type : Option AssetType
  pub behind : Option CursorPosition
  pub limit : ℤ

pub record SearchResult : Type 0 where
  pub assets : List Asset
  pub next : Option CursorPosition

abbrev pub bad_search : Bytes → Bool
bad_search text = is_empty text || not (valid_string text) || ltb 100 (rune_count text)

abbrev pub bad_type : Option AssetType → Bool
bad_type none = false
bad_type (some t) = not (is_ok (check_asset_type t))

abbrev pub bad_cursor : Option CursorPosition → Bool
bad_cursor none = false
bad_cursor (some c) = is_zero c.asset_id || is_empty c.symbol || is_empty c.exchange

unfoldable pub bad_input : SearchInput → Bool
bad_input input =
    ltb_ℤ input.limit (pos 1)
    || ltb_ℤ (pos 100) input.limit
    || (input.has_search && bad_search input.search)
    || bad_type input.asset_type
    || bad_cursor input.cursor

unfoldable pub position_of : Asset → CursorPosition
position_of item = record { symbol = item.symbol; exchange = item.exchange; asset_id = item.id }

-- the page: the first assets, and the position of the last one when there are more
unfoldable pub page_of_assets : ℕ → List Asset → SearchResult
page_of_assets zero found = record { assets = []; next = none }
page_of_assets (suc n) [] = record { assets = []; next = none }
page_of_assets (suc zero) (x ∷ []) = record { assets = x ∷ []; next = none }
page_of_assets (suc zero) (x ∷ y ∷ rest) = record { assets = x ∷ []; next = some (position_of x) }
page_of_assets (suc (suc n)) (x ∷ rest) =
    let page = page_of_assets (suc n) rest in record { assets = x ∷ page.assets; next = page.next }

module _ (get_by_id : Uuid → Result CatalogError Asset)
    (query : SearchQuery → Result CatalogError (List Asset)) where
  unfoldable pub get_asset : Uuid → Uuid → Result CatalogError Asset
  get_asset principal id = do
    fail_if (is_zero principal) unauthenticated
    fail_if (is_zero id) invalid_asset_input
    get_by_id id

  unfoldable pub search_assets : Uuid → SearchInput → Result CatalogError SearchResult
  search_assets principal input = do
    fail_if (is_zero principal) unauthenticated
    fail_if (bad_input input) invalid_asset_input
    found ← query (record {
      search = input.search;
      has_search = input.has_search;
      asset_type = input.asset_type;
      behind = input.cursor;
      limit = input.limit +ℤ pos 1;
    })
    ok (page_of_assets (pos_part input.limit) found)
