-- ===== src/Repository/Builder.antt =====
-- src/repository/base.repository.ts: `scopedQueryBuilder` and `repository`, and what a subclass may add
-- to the builder.
--
-- A builder is its WHERE: the conditions in the order of the calls, each with its connective. In SQL
-- AND binds tighter than OR. Which rows a condition holds of is its predicate.
use mathlib.Core.Path.{fun_ext}
use iveri_nest_sdk.Common.{
  ℕ, ◌≡◌, refl, ap, ◌∙◌, arith, Bool, true, ◌&&◌, ◌||◌, Option, none, some, List, [], ◌∷◌, ◌++◌,
  map, all, select, ◌==◌,
}
use iveri_nest_sdk.Common.Text.{Text, codes}
use iveri_nest_sdk.Repository.Base.{Row, Table}

pub data Connective : Type 0 where
  and_where or_where : Connective

pub record Condition : Type 0 where
  pub connective : Connective
  pub holds : Row → Bool

-- The manager of the data source, or a transaction's.
pub data EntityManager : Type 0 where
  of_data_source : EntityManager
  of_transaction : ℕ → EntityManager

pub record QueryBuilderDto : Type 0 where
  pub tenant_id : ℕ
  pub manager : Option EntityManager
  pub alias : Text

pub record SelectQueryBuilder : Type 0 where
  pub manager : EntityManager
  pub alias : Text
  pub text : Text
  pub conditions : List Condition

-- `manager ?? this.dataSource.manager`
abbrev manager_of : Option EntityManager → EntityManager
manager_of none = of_data_source
manager_of (some manager) = manager

abbrev in_tenant : ℕ → Row → Bool
in_tenant tenant_id row = row.tenant_id == tenant_id

unfoldable pub scoped_query_builder : QueryBuilderDto → SelectQueryBuilder
scoped_query_builder dto = record {
  manager = manager_of dto.manager;
  alias = dto.alias;
  text = dto.alias ++ codes ".tenant_id = :tenantId";
  conditions = record { connective = and_where; holds = in_tenant dto.tenant_id } ∷ [];
}

abbrev pub and_holds : (Row → Bool) → Condition
and_holds p = record { connective = and_where; holds = p }

abbrev pub or_holds : (Row → Bool) → Condition
or_holds p = record { connective = or_where; holds = p }

abbrev pub add : List Condition → SelectQueryBuilder → SelectQueryBuilder
add conditions builder = record builder { conditions = builder.conditions ++ conditions }

-- Whether a row meets the conditions, where `group` is the conjunction that is being read.
abbrev combine : Connective → (group next : Bool) (rest : Bool → Bool) → Bool
combine and_where group next rest = rest (group && next)
combine or_where group next rest = group || rest next

abbrev meets_from : List Condition → Bool → Row → Bool
meets_from [] group row = group
meets_from (c ∷ cs) group row = combine c.connective group (c.holds row) (λ g. meets_from cs g row)

unfoldable pub get_many : SelectQueryBuilder → Table → Table
get_many builder table = select (meets_from builder.conditions true) table

meets_from-and :
    (ps : List (Row → Bool)) (group : Bool) (row : Row)
    → meets_from (map and_holds ps) group row ≡ (group && all (λ p. p row) ps)
meets_from-and [] group row = ground arith
meets_from-and (p ∷ ps) group row = meets_from-and ps (group && p row) row ∙ ground arith

meets_from-or :
    (ps : List (Row → Bool)) (q : Row → Bool) (group : Bool) (row : Row)
    → meets_from (map and_holds ps ++ (or_holds q ∷ [])) group row
      ≡ (group && all (λ p. p row) ps || q row)
meets_from-or [] q group row = ground arith
meets_from-or (p ∷ ps) q group row = meets_from-or ps q (group && p row) row ∙ ground arith

-- Whatever conditions a subclass adds with `andWhere`, the rows that it gets are those of the tenant
-- that meet them all, in the transaction that it was given; and one `orWhere` after them adds every
-- row that meets its condition, of any tenant.
scoped_query_builder-scope :
    (dto : QueryBuilderDto) (ps : List (Row → Bool)) (q : Row → Bool) (table : Table)
    → ((scoped_query_builder dto).manager ≡ manager_of dto.manager)
      × (get_many (add (map and_holds ps) (scoped_query_builder dto)) table
          ≡ select (λ row. in_tenant dto.tenant_id row && all (λ p. p row) ps) table)
      × (get_many (add (map and_holds ps ++ (or_holds q ∷ [])) (scoped_query_builder dto)) table
          ≡ select (λ row. in_tenant dto.tenant_id row && all (λ p. p row) ps || q row) table)
unfolding scoped_query_builder get_many
scoped_query_builder-scope dto ps q table = (
  refl,
  ap (λ p. select p table) (fun_ext λ row. meets_from-and ps (in_tenant dto.tenant_id row) row),
  ap (λ p. select p table) (fun_ext λ row. meets_from-or ps q (in_tenant dto.tenant_id row) row),
)
