-- ===== src/Repository/Base.antt =====
-- src/repository/base.repository.ts over one table. TypeORM is the parameter `Orm`.
use Prim.Native.String.{String}
use iveri_nest_sdk.Common.{
  ℕ, Bool, true, false, ◌&&◌, ◌||◌, ◌≡◌, not, Option, none, some, List, [], ◌∷◌, map, any, select,
  length, take, drop, ◌==◌, if◌then◌else◌,
}
use iveri_nest_sdk.Repository.Scope.{
  Value, uuid, Object, lookup, Where, one, scope_where_to_tenant, strip_managed_columns, spread,
}

pub record Row : Type 0 where
  pub id : ℕ
  pub tenant_id : ℕ
  pub deleted_at : Option ℕ
  pub columns : Object

abbrev pub Table : Type 0
Table = List Row

-- What TypeORM documents of a repository. The properties of a `where` object must all hold, and
-- `holds` says when one does: `tenantId` and `id` are compared with the columns. `sort` puts found
-- rows in an order. `load` reads the relations of a row, which other tables hold, into its columns.
-- `assign` is the SET of an UPDATE: it leaves the columns `tenant_id` and `id` alone if the values
-- lack them. `save` writes whole entities.
pub record Orm : Type 0 where
  pub holds : String → Value → Row → Bool
  pub holds-tenant : (t : ℕ) (row : Row) → holds "tenantId" (uuid t) row ≡ (row.tenant_id == t)
  pub sort : Option Object → List Row → List Row
  pub load : Option Object → Row → Row
  pub assign : Object → Row → Row
  pub assign-tenant :
      (values : Object) (row : Row)
      → lookup "tenantId" values ≡ none
      → (assign values row).tenant_id ≡ row.tenant_id
  pub assign-id :
      (values : Object) (row : Row) → lookup "id" values ≡ none → (assign values row).id ≡ row.id
  pub now : ℕ
  pub save : List Object → Table → Table

-- `manager`, which chooses the connection, is left out of each: one table is modelled.
pub record FindOneByIdDto : Type 0 where
  pub tenant_id : ℕ
  pub id : ℕ
  pub relations : Option Object
  pub with_deleted : Bool

pub record FindOneDto : Type 0 where
  pub tenant_id : ℕ
  pub condition : Where
  pub order : Option Object
  pub relations : Option Object
  pub with_deleted : Bool

pub record FindManyDto : Type 0 where
  pub tenant_id : ℕ
  pub condition : Where
  pub order : Option Object
  pub relations : Option Object
  pub with_deleted : Bool
  pub take : Option ℕ
  pub skip : Option ℕ

pub record CountDto : Type 0 where
  pub tenant_id : ℕ
  pub condition : Where
  pub with_deleted : Bool

abbrev pub is_null : Option ℕ → Bool
is_null none = true
is_null (some n) = false

abbrev pub by_id : ℕ → Where
by_id i = one (("id", uuid i) ∷ [])

abbrev pub head? : List Row → Option Row
head? [] = none
head? (row ∷ rows) = some row

-- The rows from `skip` on, at most `take` of them.
abbrev pub skipped : Option ℕ → List Row → List Row
skipped none rows = rows
skipped (some n) rows = drop n rows

abbrev pub taken : Option ℕ → List Row → List Row
taken none rows = rows
taken (some n) rows = take n rows

module _ (orm : Orm) where
  -- A `where` object.
  unfoldable pub meets : Row → Object → Bool
  meets row [] = true
  meets row ((k, v) ∷ clause) = orm.holds k v row && meets row clause

  -- The array of them, which is TypeORM's OR; an empty one is no condition at all.
  -- `scope_where_to_tenant` gives none that is empty, which an UPDATE would refuse.
  unfoldable pub meets_any : List Object → Row → Bool
  unfolding meets
  meets_any [] row = true
  meets_any (clause ∷ clauses) row = any (meets row) (clause ∷ clauses)

  -- A soft-deleted row is found only with `withDeleted`.
  unfoldable pub found : List Object → Bool → Table → List Row
  unfolding meets_any
  found clauses with_deleted table =
      select (λ row. meets_any clauses row && (with_deleted || is_null row.deleted_at)) table

  unfoldable pub find_many : FindManyDto → Table → List Row
  unfolding found scope_where_to_tenant
  find_many dto table =
      let rows = found (scope_where_to_tenant dto.tenant_id dto.condition) dto.with_deleted table in
      map (orm.load dto.relations) (taken dto.take (skipped dto.skip (orm.sort dto.order rows)))

  unfoldable pub find_one : FindOneDto → Table → Option Row
  unfolding found scope_where_to_tenant
  find_one dto table =
      let rows = found (scope_where_to_tenant dto.tenant_id dto.condition) dto.with_deleted table in
      head? (map (orm.load dto.relations) (orm.sort dto.order rows))

  unfoldable pub find_one_by_id : FindOneByIdDto → Table → Option Row
  unfolding found scope_where_to_tenant
  find_one_by_id dto table =
      let rows =
        found (scope_where_to_tenant dto.tenant_id (by_id dto.id)) dto.with_deleted table in
      head? (map (orm.load dto.relations) rows)

  unfoldable pub count : CountDto → Table → ℕ
  unfolding found scope_where_to_tenant
  count dto table =
      length (found (scope_where_to_tenant dto.tenant_id dto.condition) dto.with_deleted table)

  -- The count is of the rows that match before `skip` and `take`.
  unfoldable pub find_and_count : FindManyDto → Table → List Row × ℕ
  unfolding find_many found scope_where_to_tenant
  find_and_count dto table =
      let rows = found (scope_where_to_tenant dto.tenant_id dto.condition) dto.with_deleted table in
      (find_many dto table, length rows)

  unfoldable pub exists : CountDto → Table → Bool
  unfolding count
  exists dto table = not (count dto table == 0)

  -- An UPDATE of the rows that meet the criteria, with the number of rows affected.
  unfoldable pub update_where : List Object → (Row → Row) → Table → Table
  unfolding meets_any
  update_where clauses change [] = []
  update_where clauses change (row ∷ table) =
      (if meets_any clauses row then change row else row) ∷ update_where clauses change table

  unfoldable pub affected : List Object → Table → ℕ
  unfolding meets_any
  affected clauses table = length (select (meets_any clauses) table)

  unfoldable pub update_by : (tenant_id : ℕ) → Where → (values : Object) → Table → Table × ℕ
  unfolding update_where affected scope_where_to_tenant strip_managed_columns
  update_by tenant_id condition values table =
      let criteria = scope_where_to_tenant tenant_id condition in
      (
        update_where criteria (orm.assign (strip_managed_columns values)) table,
        affected criteria table,
      )

  unfoldable pub update_one_by_id : (tenant_id id : ℕ) → (values : Object) → Table → Table × ℕ
  unfolding update_where affected scope_where_to_tenant strip_managed_columns
  update_one_by_id tenant_id id values table =
      let criteria = scope_where_to_tenant tenant_id (by_id id) in
      (
        update_where criteria (orm.assign (strip_managed_columns values)) table,
        affected criteria table,
      )

  unfoldable pub soft_delete_one_by_id : (tenant_id id : ℕ) → Table → Table × ℕ
  unfolding update_where affected scope_where_to_tenant
  soft_delete_one_by_id tenant_id id table =
      let criteria = scope_where_to_tenant tenant_id (by_id id) in
      (
        update_where criteria (λ row. record row { deleted_at = some orm.now }) table,
        affected criteria table,
      )

  unfoldable pub restore_one_by_id : (tenant_id id : ℕ) → Table → Table × ℕ
  unfolding update_where affected scope_where_to_tenant
  restore_one_by_id tenant_id id table =
      let criteria = scope_where_to_tenant tenant_id (by_id id) in
      (
        update_where criteria (λ row. record row { deleted_at = none }) table,
        affected criteria table,
      )

  unfoldable pub save_many : (tenant_id : ℕ) → List Object → Table → Table
  unfolding spread
  save_many tenant_id entities table =
      orm.save (map (λ entity. spread entity "tenantId" (uuid tenant_id)) entities) table

  unfoldable pub save_one : (tenant_id : ℕ) → Object → Table → Table
  unfolding spread
  save_one tenant_id entity table = orm.save (spread entity "tenantId" (uuid tenant_id) ∷ []) table
