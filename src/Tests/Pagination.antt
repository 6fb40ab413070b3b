-- ===== src/Tests/Pagination.antt =====
-- The theorems on pages, each at one input.
use backend_architecture.Prelude.{ℕ, ◌≡◌, refl, List, [], ◌∷◌, arith, length}
use backend_architecture.Pagination.{PaginationParams, build_pagination_meta}
use backend_architecture.Pagination.Pages.{first_pages, all_pages-eq-rows}

abbrev params : PaginationParams
params = record { page = 2; page_size = 2 }

abbrev rows : List ℕ
rows = 10 ∷ 20 ∷ 30 ∷ 40 ∷ 50 ∷ []

three_pages : (build_pagination_meta 5 params).total_pages ≡ 3
unfolding build_pagination_meta
three_pages = refl

all_pages-eq-rows_example :
    first_pages rows 2 (build_pagination_meta (length rows) params).total_pages ≡ rows
all_pages-eq-rows_example = all_pages-eq-rows rows params (omega arith)
