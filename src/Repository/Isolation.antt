-- ===== src/Repository/Isolation.antt =====
-- What a scoped `where` finds: src/repository/tenant-scope.util.ts under base.repository.ts.
use Prim.Native.String.{String}
use text.Mathlib.Text.{◌==◌ as str_eq}
use text.Mathlib.TextEquality.{eq_iff}
use iveri_nest_sdk.Common.{
  ℕ, Bool, true, false, ◌&&◌, ◌≡◌, refl, none, List, [], ◌∷◌, map, any, select, arith, ◌==◌,
  if◌then◌else◌,
}
use iveri_nest_sdk.Repository.Scope.{
  uuid, Object, lookup, without, spread, Where, absent, one, many, clauses, effective,
  scope_where_to_tenant, strip_managed_columns,
}
use iveri_nest_sdk.Repository.Base.{Row, Table, Orm, meets, meets_any, found, affected}

abbrev pub own : ℕ → Table → Table
own t table = select (λ row. row.tenant_id == t) table

lookup-without :
    (j k : String) (o : Object) → lookup j (without k o) ≡ (if str_eq k j then none else lookup j o)
unfolding without
lookup-without j k [] = ground arith
lookup-without j k ((i, v) ∷ o) =
    ground (arith, lookup-without j k o, eq_iff i k, eq_iff i j, eq_iff k j)

-- What is left of the values has no property by which TypeORM would move a row.
pub stripped :
    (values : Object)
    → (lookup "tenantId" (strip_managed_columns values) ≡ none)
      × (lookup "id" (strip_managed_columns values) ≡ none)
unfolding strip_managed_columns
stripped values = (simp lookup-without, simp lookup-without)

module _ (orm : Orm) (t : ℕ) where
  meets-spread :
      (row : Row) (clause : Object)
      → meets orm row (spread clause "tenantId" (uuid t))
        ≡ ((row.tenant_id == t) && meets orm row (without "tenantId" clause))
  unfolding meets spread
  meets-spread row clause = rw (orm.holds-tenant t row)

  any-scoped :
      (row : Row) (cs : List Object)
      → any (meets orm row) (map (λ clause. spread clause "tenantId" (uuid t)) cs)
        ≡ ((row.tenant_id == t) && any (λ clause. meets orm row (without "tenantId" clause)) cs)
  any-scoped row [] = ground arith
  any-scoped row (c ∷ cs) = ground (arith, meets-spread row c, any-scoped row cs)

  -- A scoped `where` is met by the tenant's rows that meet a clause of the caller, apart from any
  -- `tenantId` that the caller put into it, and by no other row; an absent `where` and an empty
  -- array have one clause that every row meets.
  scope_where_to_tenant-meets :
      (w : Where) (row : Row)
      → meets_any orm (scope_where_to_tenant t w) row ≡ (
          (row.tenant_id == t)
          && any (λ clause. meets orm row (without "tenantId" clause)) (effective (clauses w)))
  unfolding meets_any scope_where_to_tenant
  scope_where_to_tenant-meets absent row = any-scoped row ([] ∷ [])
  scope_where_to_tenant-meets (one o) row = any-scoped row (o ∷ [])
  scope_where_to_tenant-meets (many []) row = any-scoped row ([] ∷ [])
  scope_where_to_tenant-meets (many (o ∷ os)) row = any-scoped row (o ∷ os)

  pub scoped_false :
      (w : Where) (row : Row)
      → (row.tenant_id == t) ≡ false
      → meets_any orm (scope_where_to_tenant t w) row ≡ false
  scoped_false w row other = ground (arith, other, scope_where_to_tenant-meets w row)

  pub scoped_true :
      (w : Where) (row : Row)
      → meets_any orm (scope_where_to_tenant t w) row ≡ true
      → row.tenant_id ≡ t
  scoped_true w row hit = ground (arith, hit, scope_where_to_tenant-meets w row)

  pub found-own :
      (w : Where) (wd : Bool) (table : Table)
      → found orm (scope_where_to_tenant t w) wd (own t table)
        ≡ found orm (scope_where_to_tenant t w) wd table
  unfolding found
  found-own w wd [] = refl
  found-own w wd (row ∷ table) = ground (arith, found-own w wd table, scoped_false w row)

  pub affected-own :
      (w : Where) (table : Table)
      → affected orm (scope_where_to_tenant t w) (own t table)
        ≡ affected orm (scope_where_to_tenant t w) table
  unfolding affected
  affected-own w [] = refl
  affected-own w (row ∷ table) = ground (arith, affected-own w table, scoped_false w row)
