-- ===== src/Repository/Tests.antt =====
-- A table of two tenants under a small TypeORM, and the theorems at it.
mod Memory
use iveri_nest_sdk.Repository.Tests.Memory.{blank, holds, assign, save, upsert, small_orm}
use Prim.Native.String.{String}
use text.Mathlib.Text.{◌==◌ as str_eq}
use iveri_nest_sdk.Common.{
  ℕ, Bool, true, false, ◌||◌, ◌≡◌, ◌⊎◌, inl, inr, refl, Option, none, some, List, [], ◌∷◌, All,
  All-mono, arith, ◌==◌, Bool-cases, if◌then◌else◌,
}
use iveri_nest_sdk.Repository.Scope.{Value, uuid, other, Object, lookup, many}
use iveri_nest_sdk.Repository.Base.{
  Row, Table, Orm, FindOneByIdDto, FindOneDto, FindManyDto, CountDto, find_many, count, save_one,
  save_many,
}
use iveri_nest_sdk.Repository.Builder.{
  QueryBuilderDto, scoped_query_builder, get_many, add, and_holds, or_holds,
}
use iveri_nest_sdk.Common.Text.{codes}
use iveri_nest_sdk.Repository.Partition.{
  Write, change_rows, change_row, soft_delete, restore, Request, write, write_all, of_tenant,
  write_all-own,
}
use iveri_nest_sdk.Repository.Isolation.{own}

abbrev mine : Row
mine = record { id = 1; tenant_id = 3; deleted_at = none; columns = [] }

abbrev theirs : Row
theirs = record { id = 2; tenant_id = 4; deleted_at = none; columns = [] }

abbrev table : Table
table = mine ∷ theirs ∷ []

-- The caller asks for the other tenant's rows.
abbrev nosy : FindManyDto
nosy = record {
  tenant_id = 3;
  condition = many ((("tenantId", uuid 4) ∷ []) ∷ (("id", uuid 2) ∷ []) ∷ [] ∷ []);
  order = none;
  relations = none;
  with_deleted = false;
  take = some 5;
  skip = none;
}

finds_mine : find_many small_orm nosy table ≡ mine ∷ []
unfolding find_many holds
finds_mine = refl

-- An empty array is no condition, but for the tenant.
abbrev unconditional : CountDto
unconditional = record { tenant_id = 3; condition = many []; with_deleted = true }

abbrev first : FindOneDto
first = record {
  tenant_id = 4;
  condition = many [];
  order = none;
  relations = none;
  with_deleted = false;
}

abbrev theirs_by_id : FindOneByIdDto
theirs_by_id = record { tenant_id = 3; id = 2; relations = none; with_deleted = true }

counts_mine : count small_orm unconditional table ≡ 1
unfolding count holds
counts_mine = refl

abbrev moving : Object
moving = ("tenantId", uuid 3) ∷ ("id", uuid 9) ∷ []

-- Tenant 3 tries to move and to restore rows, while another tenant writes.
abbrev requests : List Request
requests =
    (3, change_rows (many []) moving)
    ∷ (4, soft_delete 2)
    ∷ (3, restore 2)
    ∷ (4, change_row 2 moving)
    ∷ []

write_all-own_example :
    (own 3 (write_all small_orm requests table)
      ≡ write_all small_orm (of_tenant small_orm 3 requests) (own 3 table))
    × ((r : Write)
        → (write small_orm (3, r) (write_all small_orm requests table)).1
          ≡ (write small_orm
              (3, r)
              (write_all small_orm (of_tenant small_orm 3 requests) (own 3 table))).1)
write_all-own_example = write_all-own small_orm 3 requests table

-- An `orWhere` reaches the other tenant's row.
abbrev builder_dto : QueryBuilderDto
builder_dto = record { tenant_id = 1; manager = none; alias = codes "order" }

abbrev own_row : Row
own_row = record blank { id = 5; tenant_id = 1 }

abbrev others_row : Row
others_row = record blank { id = 6; tenant_id = 2 }

widened :
    get_many
      (add
        (and_holds (λ row. row.id == 5) ∷ or_holds (λ row. row.id == 6) ∷ [])
        (scoped_query_builder builder_dto))
      (own_row ∷ others_row ∷ [])
    ≡ own_row ∷ others_row ∷ []
unfolding get_many scoped_query_builder
widened = refl

narrowed :
    get_many
      (add
        (and_holds (λ row. (row.id == 5) || (row.id == 6)) ∷ [])
        (scoped_query_builder builder_dto))
      (own_row ∷ others_row ∷ [])
    ≡ own_row ∷ []
unfolding get_many scoped_query_builder
narrowed = refl
