-- ===== src/GenDoc/Tests.antt =====
-- A document with one function and one operator.
use promscale_extension.Prelude.{
  some, List, Option, ◌≡◌, ◌↔◌, refl, [], ◌∷◌, map, ok, err, null_column, All,
}
use promscale_extension.GenDoc.{
  Kind, kind_prefix, kind_infix, PgOperator, op_query, FunctionRow, output_operators, finish,
  dump_sql_from_connection,
}
use promscale_extension.GenDoc.Sections.{IsInfix, dump_sql_from_connection-ok_iff}

abbrev operator : Kind → PgOperator
operator kind = record {
  oprkind = kind;
  oprleft = "tag_map";
  oprright = "text";
  oprresult = "tag_v";
  nspname = "ps_trace";
  oprname = "->";
  oprcode = "ps_trace.get";
  obj_description = "";
}

abbrev a_function : FunctionRow
a_function = record {
  ty = "function";
  schema = "ps_trace";
  name = "get";
  return_type = "tag_v";
  arguments = "tag_map, text";
  description = "";
}

operators_run : output_operators (some (map op_query (operator kind_infix ∷ []))) finish ≡ (
  "## Operators" ∷ "### tag_map -> text → tag_v" ∷ "" ∷ "" ∷ "__Function:__ ps_trace.get" ∷ ""
      ∷ "__Schema:__ ps_trace" ∷ [],
  ok tt,
)
operators_run = refl

prefix_run :
    output_operators (some (map op_query (operator kind_prefix ∷ []))) finish
    ≡ ("## Operators" ∷ [], err null_column)
prefix_run = refl

-- One of the two operators has one argument.
abbrev operators : List PgOperator
operators = operator kind_infix ∷ operator kind_prefix ∷ []

abbrev created : Option (Unit {0})
created = some tt

dump_sql_from_connection-ok_iff_example :
    ((dump_sql_from_connection created (some (a_function ∷ [])) (some (map op_query operators))).1
      ≡ ok tt)
    ↔ ((created ≡ some tt)
        × ((rows : List FunctionRow) × (some (a_function ∷ []) ≡ some rows))
        × ((os : List PgOperator) × (some operators ≡ some os) × All IsInfix os))
dump_sql_from_connection-ok_iff_example =
    dump_sql_from_connection-ok_iff created (some (a_function ∷ [])) (some operators)
