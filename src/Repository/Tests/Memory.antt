-- ===== src/Repository/Tests/Memory.antt =====
-- TypeORM as the tests of src/repository/base.repository.ts take it: a `where` is an equality of ids
-- and tenants, and a save is an update of the row of the entity's id, or else an insert.
use Prim.Native.String.{String}
use text.Mathlib.Text.{◌==◌ as str_eq}
use iveri_nest_sdk.Common.{
  ℕ, Bool, true, false, ◌≡◌, refl, Option, none, some, List, [], ◌∷◌, arith, ◌==◌, if◌then◌else◌,
}
use iveri_nest_sdk.Repository.Scope.{Value, uuid, other, Object, lookup}
use iveri_nest_sdk.Repository.Base.{Row, Table, Orm}

abbrev as_uuid : ℕ → Option Value → ℕ
as_uuid d (some (uuid n)) = n
as_uuid d (some (other n)) = d
as_uuid d none = d

abbrev is_uuid : Value → ℕ → Bool
is_uuid (uuid n) m = m == n
is_uuid (other n) m = false

unfoldable pub holds : String → Value → Row → Bool
holds k v row =
    if str_eq k "tenantId"
    then is_uuid v row.tenant_id
    else if str_eq k "id"
    then is_uuid v row.id
    else true

pub holds-tenant : (t : ℕ) (row : Row) → holds "tenantId" (uuid t) row ≡ (row.tenant_id == t)
unfolding holds
holds-tenant t row = refl

unfoldable pub assign : Object → Row → Row
assign values row = record row {
  id = as_uuid row.id (lookup "id" values);
  tenant_id = as_uuid row.tenant_id (lookup "tenantId" values);
}

pub assign-tenant :
    (values : Object) (row : Row)
    → lookup "tenantId" values ≡ none
    → (assign values row).tenant_id ≡ row.tenant_id
unfolding assign
assign-tenant values row e = ground (arith, e)

pub assign-id :
    (values : Object) (row : Row) → lookup "id" values ≡ none → (assign values row).id ≡ row.id
unfolding assign
assign-id values row e = ground (arith, e)

abbrev pub blank : Row
blank = record { id = 0; tenant_id = 0; deleted_at = none; columns = [] }

-- An update of the row of the entity's id, or else an insert.
unfoldable pub upsert : Object → Table → Table
unfolding assign
upsert entity [] = assign entity blank ∷ []
upsert entity (row ∷ table) =
    if row.id == as_uuid 0 (lookup "id" entity)
    then assign entity row ∷ table
    else row ∷ upsert entity table

unfoldable pub save : List Object → Table → Table
unfolding upsert
save [] table = table
save (entity ∷ entities) table = save entities (upsert entity table)

abbrev pub small_orm : Orm
small_orm = record {
  holds = holds;
  holds-tenant = holds-tenant;
  sort = λ order rows. rows;
  load = λ relations row. row;
  assign = assign;
  assign-tenant = assign-tenant;
  assign-id = assign-id;
  now = 900;
  save = save;
}
