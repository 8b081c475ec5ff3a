-- ===== src/Asset/Service/Pages.antt =====
-- The pages of `SearchAssets` in backend/internal/asset/application/service.go.
use mathlib.Core.Path.{subst}
use ai_portfolio_research_as.Prelude.{
  ◌≡◌, ◌≢◌, ◌≤◌, refl, ap, sym, ◌∙◌, arith, ℕ, zero, suc, Bool, false, List, [], ◌∷◌, ◌++◌, Option,
  none, some, Result, ok, >>=-eq-ok, fail_if, length,
}
use ai_portfolio_research_as.Prelude.Int.{ℤ, pos, negsuc, pos_part, ◌+ℤ◌, ltb_ℤ}
use ai_portfolio_research_as.Text.{Bytes}
use ai_portfolio_research_as.Transaction.Value.{Uuid, is_zero}
use ai_portfolio_research_as.Asset.{Asset, AssetType}
use ai_portfolio_research_as.Asset.Service.{
  CatalogError, unauthenticated, invalid_asset_input, CursorPosition, SearchInput, SearchQuery,
  SearchResult, bad_input, position_of, page_of_assets, search_assets,
}

-- What a page shows of what there is: its beginning, at most `n` assets, and a position to go on
-- from, that of the last asset of `n`, exactly when something was left out.
pub record IsPage (n : ℕ) (found : List Asset) (page : SearchResult) : Type 0 where
  pub left : List Asset
  pub shown : found ≡ page.assets ++ left
  pub bounded : length page.assets ≤ n
  pub filled : (c : CursorPosition) → page.next ≡ some c → length page.assets ≡ n
  pub ends : page.next ≡ none → left ≡ []
  pub continues :
      (c : CursorPosition)
      → page.next ≡ some c
      → (left ≢ [])
        × ((first : List Asset) × (last : Asset) × (page.assets ≡ first ++ (last ∷ []))
            × (c ≡ position_of last))

page_of_assets-IsPage :
    (n : ℕ) (found : List Asset) → IsPage (suc n) found (page_of_assets (suc n) found)
unfolding page_of_assets
page_of_assets-IsPage zero [] = record {
  left = [];
  shown = refl;
  bounded = omega arith;
  filled = λ c h. cc;
  ends = λ _. refl;
  continues = λ c h. cc;
}
page_of_assets-IsPage zero (x ∷ []) = record {
  left = [];
  shown = refl;
  bounded = omega arith;
  filled = λ c h. cc;
  ends = λ _. refl;
  continues = λ c h. cc;
}
page_of_assets-IsPage zero (x ∷ y ∷ rest) = record {
  left = y ∷ rest;
  shown = refl;
  bounded = omega arith;
  filled = λ c h. refl;
  ends = λ h. cc;
  continues = λ c h. (λ e. cc, ([], x, refl, cc));
}
page_of_assets-IsPage (suc n) [] = record {
  left = [];
  shown = refl;
  bounded = omega arith;
  filled = λ c h. cc;
  ends = λ _. refl;
  continues = λ c h. cc;
}
page_of_assets-IsPage (suc n) (x ∷ rest) =
    let page = page_of_assets-IsPage n rest in
    record {
      left = page.left;
      shown = ap (λ (l : List Asset). x ∷ l) page.shown;
      bounded = omega (arith, page.bounded);
      filled = λ c h. ap suc (page.filled c h);
      ends = page.ends;
      continues = λ c h.
          let (more, (first, last, e, at)) = page.continues c h in
          (more, (x ∷ first, last, ap (λ (l : List Asset). x ∷ l) e, at));
    }

positive-IsPage : (n : ℕ) (found : List Asset) → 1 ≤ n → IsPage n found (page_of_assets n found)
positive-IsPage zero found h = absurd (omega (arith, h))
positive-IsPage (suc n) found h = page_of_assets-IsPage n found

limit_bounds :
    (limit : ℤ)
    → ltb_ℤ limit (pos 1) ≡ false
    → ltb_ℤ (pos 100) limit ≡ false
    → (1 ≤ pos_part limit) × (pos_part limit ≤ 100)
limit_bounds (pos n) h k = (ground arith, ground arith)
limit_bounds (negsuc n) h k = absurd (ground arith)

bad_input-limit :
    (input : SearchInput)
    → bad_input input ≡ false
    → (ltb_ℤ input.limit (pos 1) ≡ false) × (ltb_ℤ (pos 100) input.limit ≡ false)
unfolding bad_input
bad_input-limit input h = ground arith

abbrev pub first_assets : ℕ → List Asset → List Asset
first_assets zero assets = []
first_assets (suc n) [] = []
first_assets (suc n) (x ∷ rest) = x ∷ first_assets n rest

-- One asset more than a page shows is enough to make it.
page_of_assets-first_assets :
    (n : ℕ) (assets : List Asset)
    → page_of_assets (suc n) (first_assets (suc (suc n)) assets) ≡ page_of_assets (suc n) assets
unfolding page_of_assets
page_of_assets-first_assets zero [] = refl
page_of_assets-first_assets zero (x ∷ []) = refl
page_of_assets-first_assets zero (x ∷ y ∷ rest) = refl
page_of_assets-first_assets (suc n) [] = refl
page_of_assets-first_assets (suc n) (x ∷ rest) =
    ap (λ (page : SearchResult). record { assets = x ∷ page.assets; next = page.next })
      (page_of_assets-first_assets n rest)

-- the same for a limit of a search
page_of_limit :
    (limit : ℤ) (assets : List Asset)
    → ltb_ℤ limit (pos 1) ≡ false
    → page_of_assets (pos_part limit) (first_assets (pos_part (limit +ℤ pos 1)) assets)
      ≡ page_of_assets (pos_part limit) assets
unfolding ◌+ℤ◌
page_of_limit (pos zero) assets h = absurd (ground (arith, h))
page_of_limit (pos (suc n)) assets h =
    let more : pos_part (pos (suc n) +ℤ pos 1) ≡ suc (suc n) = ground arith in
    rw more (page_of_assets-first_assets n assets)
page_of_limit (negsuc n) assets h = absurd (ground (arith, h))

-- The catalog behind a query: `listing` has the assets that match a text and a type and stand
-- behind a position, in the order of the catalog. A query answers the first of them, up to its
-- limit, as the ORDER BY and LIMIT of its statement say.
abbrev pub Listing : Type 0
Listing = Bytes → Bool → Option AssetType → Option CursorPosition → List Asset

abbrev pub ReadsListing : (SearchQuery → Result CatalogError (List Asset)) → Listing → Type 0
ReadsListing query listing =
    (q : SearchQuery) (found : List Asset)
    → query q ≡ ok found
    → found ≡ first_assets (pos_part q.limit) (listing q.search q.has_search q.asset_type q.behind)

module _ (get_by_id : Uuid → Result CatalogError Asset)
    (query : SearchQuery → Result CatalogError (List Asset)) where
  -- Over a query that answers the first assets of a listing up to its limit, a search that
  -- succeeds comes from an authenticated principal with a limit of at most 100, and its page is
  -- the beginning of the assets that the listing has for the input, behind its cursor: all of them
  -- when the page has no next position, and else as many as the limit, with the position of the
  -- last one.
  pub search_assets-IsPage :
      (listing : Listing) (reads : ReadsListing query listing) (principal : Uuid)
      (input : SearchInput) (page : SearchResult)
      → search_assets get_by_id query principal input ≡ ok page
      → (principal ≢ 0)
        × (pos_part input.limit ≤ 100)
        × IsPage
            (pos_part input.limit)
            (listing input.search input.has_search input.asset_type input.cursor)
            page
  unfolding search_assets
  search_assets-IsPage listing reads principal input page h =
      let (_, e1, h1) = >>=-eq-ok (fail_if (is_zero principal) unauthenticated) _ h in
      let (_, e2, h2) = >>=-eq-ok (fail_if (bad_input input) invalid_asset_input) _ h1 in
      let (found, e3, h3) = >>=-eq-ok (query _) _ h2 in
      let (below, above) = bad_input-limit input (ground (arith, e2)) in
      let (one, hundred) = limit_bounds input.limit below above in
      let matching = listing input.search input.has_search input.asset_type input.cursor in
      let same : page_of_assets (pos_part input.limit) found ≡ page = cc in
      let whole =
        sym (page_of_limit input.limit matching below)
        ∙ ap (page_of_assets (pos_part input.limit)) (sym (reads _ found e3))
        ∙ same in
      (
        ground (arith, e1),
        hundred,
        subst (IsPage (pos_part input.limit) matching) whole
            (positive-IsPage (pos_part input.limit) matching one),
      )
