-- ===== src/Tables.antt =====
-- src/e2e/truncate-all-tables.util.ts: the statement that empties every table of a test database.
use iveri_nest_sdk.Common.{
  ◌≡◌, refl, ◌==◌, map, Option, none, some, List, [], ◌∷◌, ◌++◌, if◌then◌else◌,
}
use iveri_nest_sdk.Common.Text.{Text, codes}

-- `replaceAll('"', '""')`
unfoldable double_quotes : Text → Text
double_quotes [] = []
double_quotes (c ∷ s) = if c == 34 then 34 ∷ 34 ∷ double_quotes s else c ∷ double_quotes s

unfoldable quote_table : Text → Text
unfolding double_quotes
quote_table name = 34 ∷ (codes "public" ++ (34 ∷ b'.' ∷ 34 ∷ (double_quotes name ++ (34 ∷ []))))

abbrev join_tables : List Text → Text
join_tables [] = []
join_tables (t ∷ []) = t
join_tables (t ∷ u ∷ ts) = t ++ (b',' ∷ 32 ∷ join_tables (u ∷ ts))

-- The statement that is sent for the tables of the schema that are not preserved, if there are any.
unfoldable truncate_all_tables : List Text → Option Text
unfolding quote_table
truncate_all_tables [] = none
truncate_all_tables (t ∷ ts) = some (
    codes "TRUNCATE TABLE "
    ++ (join_tables (map quote_table (t ∷ ts)) ++ codes " RESTART IDENTITY CASCADE"))

statement :
    truncate_all_tables (codes "user" ∷ (97 ∷ 34 ∷ []) ∷ [])
    ≡ some (
        codes "TRUNCATE TABLE "
        ++ (34 ∷ codes "public"
            ++ (34 ∷ b'.' ∷ 34 ∷ codes "user"
                ++ (34 ∷ b',' ∷ 32 ∷ 34 ∷ codes "public"
                    ++ (34 ∷ b'.' ∷ 34 ∷ 97 ∷ 34 ∷ 34 ∷ 34 ∷ codes " RESTART IDENTITY CASCADE")))))
unfolding truncate_all_tables quote_table double_quotes
statement = refl
