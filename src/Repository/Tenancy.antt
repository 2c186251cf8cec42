-- ===== src/Repository/Tenancy.antt =====
-- The reads of a repository as a tenant sees them, and the columns that a write leaves alone.
use iveri_nest_sdk.Common.{◌≡◌}
use iveri_nest_sdk.Repository.Scope.{Object, strip_managed_columns}
use iveri_nest_sdk.Repository.Base.{Row, Orm}
use iveri_nest_sdk.Repository.Isolation.{stripped}

pub assign_keeps :
    (orm : Orm) (values : Object) (row : Row)
    → (orm.assign (strip_managed_columns values) row).tenant_id ≡ row.tenant_id
assign_keeps orm values row =
    orm.assign-tenant (strip_managed_columns values) row (stripped values).0
