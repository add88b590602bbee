-- ===== src/GenDoc.antt =====
-- gendoc/src/main.rs: the document of the SQL API. What `CREATE EXTENSION` and the two queries return
-- is given; a run is the lines that are printed and how it ends.
pub mod Sections
mod Tests
use Prim.Native.String.{String, ◌++◌}
use promscale_extension.Prelude.{
  ℕ, Bool, Option, none, some, List, [], ◌∷◌, Result, ok, err, ◌>>=◌, or_fault, null_column,
  unwrap_failed,
}

pub data Kind : Type 0 where
  kind_prefix kind_postfix kind_infix : Kind

-- An operator of `pg_operator`, with what the query joins to it.
pub record PgOperator : Type 0 where
  pub oprkind : Kind
  pub oprleft : String
  pub oprright : String
  pub oprresult : String
  pub nspname : String
  pub oprname : String
  pub oprcode : String
  pub obj_description : String

-- A row of `OP_QUERY`; only the two types of arguments can be NULL.
pub record OperatorRow : Type 0 where
  pub schema : String
  pub name : String
  pub left_arg_type : Option String
  pub right_arg_type : Option String
  pub result_type : String
  pub function : String
  pub description : String

abbrev pub left_arg_of : Kind → String → Option String
left_arg_of kind_prefix t = none
left_arg_of _ t = some t

abbrev pub right_arg_of : Kind → String → Option String
right_arg_of kind_postfix t = none
right_arg_of _ t = some t

abbrev pub op_query : PgOperator → OperatorRow
op_query o = record {
  schema = o.nspname;
  name = o.oprname;
  left_arg_type = left_arg_of o.oprkind o.oprleft;
  right_arg_type = right_arg_of o.oprkind o.oprright;
  result_type = o.oprresult;
  function = o.oprcode;
  description = o.obj_description;
}

-- A row of `FN_QUERY`.
pub record FunctionRow : Type 0 where
  pub ty : String
  pub schema : String
  pub name : String
  pub return_type : String
  pub arguments : String
  pub description : String

-- `println!` appends to what was printed; a panic keeps it.
abbrev pub Printed : Type 0
Printed = List String × Result (Unit {0})

abbrev pub println : String → Printed → Printed
println line (lines, outcome) = (line ∷ lines, outcome)

abbrev pub finish : Printed
finish = ([], ok tt)

-- `unwrap` of what the database answers; an error is `none`.
abbrev pub unwrap : {A : Type 0} → Option A → (A → Printed) → Printed
unwrap none rest = ([], err unwrap_failed)
unwrap (some a) rest = rest a

-- `row.get` as a `&str`.
abbrev pub column : Option String → (String → Printed) → Printed
column none rest = ([], err null_column)
column (some value) rest = rest value

abbrev pub output_function : FunctionRow → Printed → Printed
output_function row rest = println ("### " ++ (row.schema ++ ("." ++ row.name))) (
    println row.description (
      println "```" (
        println
          (row.ty
            ++ (" "
                ++ (row.return_type
                    ++ (" **"
                        ++ (row.schema
                            ++ ("." ++ (row.name ++ ("**(" ++ (row.arguments ++ ")")))))))))
          (println "```" rest))))

abbrev pub output_function_rows : List FunctionRow → Printed → Printed
output_function_rows [] rest = rest
output_function_rows (row ∷ results) rest = output_function row (output_function_rows results rest)

-- With what `FN_QUERY` returns.
abbrev pub output_functions : Option (List FunctionRow) → Printed → Printed
output_functions results rest =
    println "## Functions" (unwrap results (λ rows. output_function_rows rows rest))

abbrev pub operator_heading : String → String → String → String → String
operator_heading left_arg_type name right_arg_type result_type =
    "### "
    ++ (left_arg_type ++ (" " ++ (name ++ (" " ++ (right_arg_type ++ (" → " ++ result_type))))))

abbrev pub output_operator : OperatorRow → Printed → Printed
output_operator row rest = column row.left_arg_type (λ left_arg_type.
    column row.right_arg_type (λ right_arg_type.
      println (operator_heading left_arg_type row.name right_arg_type row.result_type) (
        println row.description (
          println "" (
            println ("__Function:__ " ++ row.function)
              (println "" (println ("__Schema:__ " ++ row.schema) rest)))))))

abbrev pub output_operator_rows : List OperatorRow → Printed → Printed
output_operator_rows [] rest = rest
output_operator_rows (row ∷ results) rest = output_operator row (output_operator_rows results rest)

-- With what `OP_QUERY` returns.
abbrev pub output_operators : Option (List OperatorRow) → Printed → Printed
output_operators results rest =
    println "## Operators" (unwrap results (λ rows. output_operator_rows rows rest))

-- With what `CREATE EXTENSION` and the two queries return.
abbrev pub dump_sql_from_connection :
    Option (Unit {0}) → Option (List FunctionRow) → Option (List OperatorRow) → Printed
dump_sql_from_connection created functions operators = unwrap created (λ done. println "# SQL API" (
    println "<!-- Note: This document is autogenerated. DO NOT EDIT. -->"
      (output_functions functions (output_operators operators finish))))
