-- ===== src/Tests/Catalog.antt =====
-- A run of backend/internal/asset/application/service.go over a catalog of two assets.
use ai_portfolio_research_as.Prelude.{
  ◌≡◌, ◌≢◌, ◌≤◌, refl, ℕ, false, List, [], ◌∷◌, none, some, Result, ok,
}
use ai_portfolio_research_as.Prelude.Int.{pos, pos_part}
use ai_portfolio_research_as.Transaction.Value.{Uuid}
use ai_portfolio_research_as.Asset.{Asset}
use ai_portfolio_research_as.Asset.Service.{
  CatalogError, SearchInput, SearchQuery, SearchResult, position_of, search_assets,
}
use ai_portfolio_research_as.Asset.Service.Pages.{
  IsPage, Listing, ReadsListing, first_assets, search_assets-IsPage,
}
use ai_portfolio_research_as.Tests.Records.{asset}

abbrev catalog_item : Uuid → Result CatalogError Asset
catalog_item id = ok asset

abbrev shown_assets : Listing
shown_assets search has_search kind none = asset ∷ record asset { id = 8 } ∷ []
shown_assets search has_search kind (some behind) = record asset { id = 8 } ∷ []

abbrev catalog : SearchQuery → Result CatalogError (List Asset)
catalog q =
    ok (first_assets (pos_part q.limit) (shown_assets q.search q.has_search q.asset_type q.behind))

catalog-ReadsListing : ReadsListing catalog shown_assets
catalog-ReadsListing q found h = cc

abbrev wanted : SearchInput
wanted = record { search = []; has_search = false; asset_type = none; cursor = none; limit = pos 1 }

abbrev first_page : SearchResult
first_page = record { assets = asset ∷ []; next = some (position_of asset) }

-- The run, computed.
catalog_runs : search_assets catalog_item catalog 2 wanted ≡ ok first_page
unfolding ai_portfolio_research_as.Asset.Service.search_assets
    ai_portfolio_research_as.Asset.Service.bad_input
    ai_portfolio_research_as.Asset.Service.page_of_assets ai_portfolio_research_as.Prelude.Int.◌+ℤ◌
catalog_runs = refl

search_assets-IsPage_example :
    (◌≢◌ {A = Uuid} 2 0) × (◌≤◌ 1 100) × IsPage 1 (shown_assets [] false none none) first_page
search_assets-IsPage_example =
    search_assets-IsPage catalog_item catalog shown_assets catalog-ReadsListing 2 wanted first_page
      catalog_runs
