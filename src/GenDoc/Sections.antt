-- ===== src/GenDoc/Sections.antt =====
-- gendoc/src/main.rs: when the document is printed to its end, and the headings that it has.
use mathlib.Core.Option
use promscale_extension.Prelude.{
  Option, none, some, some_unique, subst, unwrap_failed, ◌≡◌, ◌≢◌, ◌↔◌, refl, sym, ◌∙◌, List, [],
  ◌∷◌, map, Result, ok, err, null_column, All,
}
use promscale_extension.GenDoc.{
  Kind, kind_prefix, kind_postfix, kind_infix, PgOperator, op_query, FunctionRow, Printed, finish,
  output_function_rows, output_operator, output_operator_rows, output_operators,
  dump_sql_from_connection,
}

abbrev pub IsInfix : PgOperator → Type 0
IsInfix o = o.oprkind ≡ kind_infix

functions-outcome :
    (functions : List FunctionRow) (rest : Printed)
    → (output_function_rows functions rest).1 ≡ rest.1
functions-outcome [] rest = refl
functions-outcome (row ∷ functions) rest = functions-outcome functions rest

ok≢err : ◌≢◌ {A = Result (Unit {0})} (err null_column) (ok tt)
ok≢err e = cc

operator-outcome :
    (o : PgOperator) (kind : Kind) (rest : Printed)
    → ((output_operator (op_query (record o { oprkind = kind })) rest).1 ≡ ok tt)
      ↔ ((kind ≡ kind_infix) × (rest.1 ≡ ok tt))
operator-outcome o kind_prefix rest = (λ e. absurd (ok≢err e), λ (k, e). absurd (cc))
operator-outcome o kind_postfix rest = (λ e. absurd (ok≢err e), λ (k, e). absurd (cc))
operator-outcome o kind_infix rest = (λ e. (refl, e), λ (k, e). e)

operators-outcome :
    (operators : List PgOperator)
    → ((output_operator_rows (map op_query operators) finish).1 ≡ ok tt) ↔ All IsInfix operators
operators-outcome [] = (λ e. tt, λ h. refl)
operators-outcome (o ∷ operators) =
    let (from, to) =
      operator-outcome o o.oprkind (output_operator_rows (map op_query operators) finish) in
    let (from_rest, to_rest) = operators-outcome operators in
    (λ e. let (k, e') = from e in (k, from_rest e'), λ (k, h). to (k, to_rest h))

ok≢failed : ◌≢◌ {A = Result (Unit {0})} (err unwrap_failed) (ok tt)
ok≢failed e = cc

output_operators-outcome :
    (operators : Option (List PgOperator))
    → ((output_operators (Option.map (map op_query) operators) finish).1 ≡ ok tt)
      ↔ ((os : List PgOperator) × (operators ≡ some os) × All IsInfix os)
output_operators-outcome none = (λ e. absurd (ok≢failed e), λ (os, e, h). absurd (cc))
output_operators-outcome (some operators) =
    let (onward, back) = operators-outcome operators in
    (
      λ e. (operators, refl, onward e),
      λ (os, e, h). back (subst (All IsInfix) (sym (some_unique operators os e)) h),
    )

-- The document is printed to its end exactly when the extension is created, the two queries return
-- their rows and every operator takes two arguments: an operator with one, of which a type is NULL,
-- ends the program with a panic, whatever the functions are.
pub dump_sql_from_connection-ok_iff :
    (created : Option (Unit {0})) (functions : Option (List FunctionRow))
    (operators : Option (List PgOperator))
    → ((dump_sql_from_connection created functions (Option.map (map op_query) operators)).1 ≡ ok tt)
      ↔ ((created ≡ some tt)
          × ((rows : List FunctionRow) × (functions ≡ some rows))
          × ((os : List PgOperator) × (operators ≡ some os) × All IsInfix os))
dump_sql_from_connection-ok_iff none functions operators =
    (λ e. absurd (ok≢failed e), λ (c, f, o). absurd (cc))
dump_sql_from_connection-ok_iff (some tt) none operators =
    (λ e. absurd (ok≢failed e), λ (c, (rows, f), o). absurd (cc))
dump_sql_from_connection-ok_iff (some tt) (some functions) operators =
    let same =
      functions-outcome functions (output_operators (Option.map (map op_query) operators) finish) in
    let (onward, back) = output_operators-outcome operators in
    (λ e. (refl, (functions, refl), onward (sym same ∙ e)), λ (c, f, o). same ∙ back o)
