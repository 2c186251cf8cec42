-- ===== src/Repository/Partition.antt =====
-- To each tenant the shared table is a table of its own: src/repository/base.repository.ts.
use mathlib.Core.Path.{subst}
use iveri_nest_sdk.Common.{
  ℕ, ◌≡◌, refl, sym, arith, false, List, [], ◌∷◌, select, ◌==◌, Bool-cases, inl, inr,
}
use iveri_nest_sdk.Repository.Scope.{Object, Where, scope_where_to_tenant}
use iveri_nest_sdk.Repository.Base.{
  Row, Table, Orm, by_id, update_where, update_by, update_one_by_id, soft_delete_one_by_id,
  restore_one_by_id,
}
use iveri_nest_sdk.Repository.Isolation.{own, affected-own, scoped_false, scoped_true}
use iveri_nest_sdk.Repository.Tenancy.{assign_keeps}

-- A write of a tenant.
pub data Write : Type 0 where
  change_rows : Where → (values : Object) → Write
  change_row : (id : ℕ) → (values : Object) → Write
  soft_delete : (id : ℕ) → Write
  restore : (id : ℕ) → Write

-- A write with the tenant that makes it.
abbrev pub Request : Type 0
Request = ℕ × Write

module _ (orm : Orm) where
  unfoldable pub write : Request → Table → Table × ℕ
  unfolding update_by update_one_by_id soft_delete_one_by_id restore_one_by_id
  write (t, change_rows w values) table = update_by orm t w values table
  write (t, change_row id values) table = update_one_by_id orm t id values table
  write (t, soft_delete id) table = soft_delete_one_by_id orm t id table
  write (t, restore id) table = restore_one_by_id orm t id table

  unfoldable pub write_all : List Request → Table → Table
  unfolding write
  write_all [] table = table
  write_all (r ∷ requests) table = write_all requests (write r table).0

  module _ (t : ℕ) (w : Where) (change : Row → Row)
      (same : (row : Row) → (change row).tenant_id ≡ row.tenant_id) where
    own-update_where :
        (table : Table)
        → own t (update_where orm (scope_where_to_tenant t w) change table)
          ≡ update_where orm (scope_where_to_tenant t w) change (own t table)
    unfolding update_where
    own-update_where [] = refl
    own-update_where (row ∷ table) =
        ground (arith, own-update_where table, same row, scoped_false orm t w row)

    others-update_where :
        (u : ℕ) (table : Table)
        → (t == u) ≡ false
        → own u (update_where orm (scope_where_to_tenant t w) change table) ≡ own u table
    unfolding update_where
    others-update_where u [] ne = refl
    others-update_where u (row ∷ table) ne =
        ground (arith, others-update_where u table ne, same row, scoped_true orm t w row, ne)

  -- A write of a tenant is a write of its own rows, and none of anybody else's.
  own-write :
      (t : ℕ) (r : Write) (table : Table)
      → (own t (write (t, r) table).0 ≡ (write (t, r) (own t table)).0)
        × ((write (t, r) table).1 ≡ (write (t, r) (own t table)).1)
  unfolding write
  own-write t (change_rows w values) table =
      (own-update_where t w _ (assign_keeps orm values) table, sym (affected-own orm t w table))
  own-write t (change_row id values) table = (
    own-update_where t (by_id id) _ (assign_keeps orm values) table,
    sym (affected-own orm t (by_id id) table),
  )
  own-write t (soft_delete id) table = (
    own-update_where t (by_id id) _ (λ row. refl) table,
    sym (affected-own orm t (by_id id) table),
  )
  own-write t (restore id) table = (
    own-update_where t (by_id id) _ (λ row. refl) table,
    sym (affected-own orm t (by_id id) table),
  )

  others-write :
      (t u : ℕ) (r : Write) (table : Table)
      → (t == u) ≡ false
      → own u (write (t, r) table).0 ≡ own u table
  unfolding write
  others-write t u (change_rows w values) table ne =
      others-update_where t w _ (assign_keeps orm values) u table ne
  others-write t u (change_row id values) table ne =
      others-update_where t (by_id id) _ (assign_keeps orm values) u table ne
  others-write t u (soft_delete id) table ne =
      others-update_where t (by_id id) _ (λ row. refl) u table ne
  others-write t u (restore id) table ne =
      others-update_where t (by_id id) _ (λ row. refl) u table ne

  -- The requests of the tenant `u`.
  abbrev pub of_tenant : ℕ → List Request → List Request
  of_tenant u requests = select (λ r. r.0 == u) requests

  -- The requests on a table are, to the tenant `u`, its own requests on a table of its own.
  abbrev Agrees : ℕ → List Request → Table → Table → Type 0
  Agrees u requests table alone =
      (own u (write_all requests table) ≡ write_all (of_tenant u requests) alone)
      × ((r : Write)
          → (write (u, r) (write_all requests table)).1
            ≡ (write (u, r) (write_all (of_tenant u requests) alone)).1)

  -- To each tenant the shared table is a table of its own. Whatever updates, soft deletes and
  -- restores the tenants make in whatever order, the rows that a tenant has in the end are those
  -- that its own requests alone make of its own rows, and each of its requests is told the same
  -- number of affected rows.
  pub write_all-own :
      (u : ℕ) (requests : List Request) (table : Table)
      → (own u (write_all requests table) ≡ write_all (of_tenant u requests) (own u table))
        × ((r : Write)
            → (write (u, r) (write_all requests table)).1
              ≡ (write (u, r) (write_all (of_tenant u requests) (own u table))).1)
  unfolding write_all
  write_all-own u [] table = (refl, λ r. (own-write u r table).1)
  write_all-own u ((t, w) ∷ requests) table = elim (Bool-cases (t == u)) [
    | inl mine ↦
        let seen =
          subst (λ v. own v (write (t, w) table).0 ≡ (write (t, w) (own v table)).0) (ground arith)
            (own-write t w table).0 in
        rw mine (
          subst (Agrees u requests (write (t, w) table).0) seen
            (write_all-own u requests (write (t, w) table).0))
    | inr theirs ↦ rw theirs (
        subst (Agrees u requests (write (t, w) table).0) (others-write t u w table theirs)
          (write_all-own u requests (write (t, w) table).0))
  ]
