-- ===== src/Repository/Scope.antt =====
-- src/repository/tenant-scope.util.ts. An object is the list of its own properties.
use Prim.Native.String.{String}
use text.Mathlib.Text.{◌==◌ as str_eq}
use iveri_nest_sdk.Common.{ℕ, Option, none, some, List, [], ◌∷◌, map, if◌then◌else◌}

-- A property value: a UUID, or anything else that a caller may pass.
pub data Value : Type 0 where
  uuid : ℕ → Value
  other : ℕ → Value

abbrev pub Object : Type 0
Object = List (String × Value)

abbrev pub lookup : String → Object → Option Value
lookup k [] = none
lookup k ((j, v) ∷ o) = if str_eq j k then some v else lookup k o

-- The object without its property `k`.
unfoldable pub without : String → Object → Object
without k [] = []
without k ((j, v) ∷ o) = if str_eq j k then without k o else (j, v) ∷ without k o

-- `{ ...o, k: v }`
unfoldable pub spread : Object → String → Value → Object
unfolding without
spread o k v = (k, v) ∷ without k o

-- The optional `where`: absent, one object, or an array of them.
pub data Where : Type 0 where
  absent : Where
  one : Object → Where
  many : List Object → Where

abbrev pub clauses : Where → List Object
clauses absent = [] ∷ []
clauses (one o) = o ∷ []
clauses (many os) = os

abbrev pub effective : List Object → List Object
effective [] = [] ∷ []
effective (o ∷ os) = o ∷ os

unfoldable pub scope_where_to_tenant : ℕ → Where → List Object
unfolding spread
scope_where_to_tenant tenant_id w =
    map (λ clause. spread clause "tenantId" (uuid tenant_id)) (effective (clauses w))

unfoldable pub strip_managed_columns : Object → Object
unfolding without
strip_managed_columns values =
    without "deletedAt"
      (without "updatedAt" (without "createdAt" (without "tenantId" (without "id" values))))
