-- ===== src/Pagination.antt =====
-- packages/api-service/src/utils/pagination.ts. Numbers are whole and exact here; the doubles of the
-- source agree with that as long as `total` is below 2 ^ 46.
pub mod Pages
use backend_architecture.Prelude.{ℕ, ◌+◌, ◌-◌, ◌*◌, ◌/◌, Bool, ltb, ◌==◌, if◌then◌else◌}

pub record PaginationParams : Type 0 where
  pub page : ℕ
  pub page_size : ℕ

-- The schema keeps `page` at 1 or more, so the truncated `-` is exact.
unfoldable pub pagination_offset : PaginationParams → ℕ
pagination_offset params = (params.page - 1) * params.page_size

pub record PaginationMeta : Type 0 where
  pub page : ℕ
  pub page_size : ℕ
  pub total : ℕ
  pub total_pages : ℕ
  pub has_next : Bool
  pub has_prev : Bool

-- `Math.ceil(a / b)` for a positive `b`
abbrev pub ceil_div : ℕ → ℕ → ℕ
ceil_div a b = (a + (b - 1)) / b

unfoldable pub build_pagination_meta : ℕ → PaginationParams → PaginationMeta
build_pagination_meta total params =
    let total_pages = if total == 0 then 0 else ceil_div total params.page_size in
    record {
      page = params.page;
      page_size = params.page_size;
      total = total;
      total_pages = total_pages;
      has_next = ltb params.page total_pages;
      has_prev = ltb 1 params.page;
    }
