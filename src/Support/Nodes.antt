-- ===== src/Support/Nodes.antt =====
-- The nodes of PostgreSQL's planner that src/support.rs reads and makes, with the fields it uses.
use promscale_extension.Prelude.{ℕ, Bool, Option, none, some}

abbrev pub Oid : Type 0
Oid = ℕ

pub data SubLinkType : Type 0 where
  exists_sublink any_sublink expr_sublink : SubLinkType

pub data CmdType : Type 0 where
  cmd_unknown cmd_select : CmdType

-- The `FROM` of a query; a new node has nothing in it.
pub data FromExpr : Type 0 where
  from_nothing : FromExpr
  from_relations : ℕ → FromExpr

pub data CoercionForm : Type 0 where
  coerce_explicit_call coerce_explicit_cast coerce_implicit_cast : CoercionForm

mutual
  pub data Node : Type 0 where
    const : ℕ → Node
    coerce_to_domain : Node → Node
    relabel_type : Node → Node
    op_expr :
        (opno opresulttype : Oid) (opretset : Bool) (opcollid inputcollid : Oid) (args : Nodes)
        → Node
    func_expr : FuncExpr → Node
    scalar_array_op_expr :
        (opno opfuncid hashfuncid : Oid) (use_or : Bool) (inputcollid : Oid) (args : Nodes) → Node
    sub_link : SubLinkType → (sub_link_id : ℕ) → Query → Node
    -- A column, a parameter, or any other node.
    other : ℕ → Node

  pub data FuncExpr : Type 0 where
    make_func_expr :
        (funcid funcresulttype : Oid) (args : Nodes) (funccollid inputcollid : Oid)
        → CoercionForm
        → FuncExpr

  pub data Query : Type 0 where
    query : CmdType → (jointree : FromExpr) → (can_set_tag : Bool) → TargetList → Query

  pub data TargetList : Type 0 where
    no_targets : TargetList
    target : (expr : Node) (resno : ℕ) → TargetList → TargetList

  -- `PgList<Node>`.
  pub data Nodes : Type 0 where
    nil : Nodes
    cons : Node → Nodes → Nodes

abbrev pub funcid : FuncExpr → Oid
funcid (make_func_expr f r a c i k) = f

abbrev pub args : FuncExpr → Nodes
args (make_func_expr f r a c i k) = a

abbrev pub funccollid : FuncExpr → Oid
funccollid (make_func_expr f r a c i k) = c

abbrev pub inputcollid : FuncExpr → Oid
inputcollid (make_func_expr f r a c i k) = i

-- `head` and `tail` of a `PgList`, the first and the last element.
abbrev pub head : Nodes → Option Node
head nil = none
head (cons n ns) = some n

abbrev pub last_of : Node → Nodes → Node
last_of n nil = n
last_of n (cons m ns) = last_of m ns

abbrev pub tail : Nodes → Option Node
tail nil = none
tail (cons n ns) = some (last_of n ns)

abbrev pub pair : Node → Node → Nodes
pair a b = cons a (cons b nil)

-- The planner's state that the functions share: `hasSubLinks` of the query that is planned, and how
-- many warnings were raised.
pub record Planner : Type 0 where
  pub has_sub_links : Bool
  pub warnings : ℕ

-- `SupportRequestSimplify` with the level of the root that it points to, or some other request.
pub data Input : Type 0 where
  other_request : Input
  null_root : FuncExpr → Input
  simplify : (query_level : ℕ) → FuncExpr → Input

pub record Request : Type 0 where
  pub query_level : ℕ
  pub fcall : FuncExpr
