-- ===== src/Scan/Plan.antt =====
-- src/fdw/scan.rs: what the planner is told. Floats, PostgreSQL's nodes for expressions, `add_path` and
-- `extract_actual_clauses` are parameters; a null pointer is `none`.
use pglance.Base.{ℕ, Bool, false, Option, none, some, List, []}

pub record Costs : Type 1 where
  pub F64 : Type 0
  pub thousand : F64
  pub zero_cost : F64
  pub one : F64
  pub max : F64 → F64 → F64

module _ (costs : Costs) where
  open costs use {F64, thousand, zero_cost, one, max}

  -- The arguments of `create_foreignscan_path` that are not null.
  pub record ForeignPath : Type 0 where
    pub rows : F64
    pub startup_cost : F64
    pub total_cost : F64

  pub record RelOptInfo : Type 0 where
    pub relid : ℕ
    pub rows : F64
    pub pathlist : List ForeignPath

  unfoldable pub get_foreign_rel_size : Option RelOptInfo → Option RelOptInfo
  get_foreign_rel_size none = none
  get_foreign_rel_size (some baserel) = some (record baserel { rows = thousand })

  abbrev pub scan_path : RelOptInfo → ForeignPath
  scan_path baserel = record {
    rows = baserel.rows;
    startup_cost = zero_cost;
    total_cost = max baserel.rows one;
  }

  unfoldable pub get_foreign_paths :
      {Root : Type 0}
      → (add_path : List ForeignPath → ForeignPath → List ForeignPath) → Option Root
      → Option RelOptInfo
      → Option RelOptInfo
  get_foreign_paths add_path none baserel = baserel
  get_foreign_paths add_path (some root) none = none
  get_foreign_paths add_path (some root) (some baserel) =
      some (record baserel { pathlist = add_path baserel.pathlist (scan_path baserel) })

  abbrev pub relid_or_zero : Option RelOptInfo → ℕ
  relid_or_zero none = 0
  relid_or_zero (some baserel) = baserel.relid

  module _ (Expr Clause Plan : Type 0)
      (extract_actual_clauses : List Clause → Bool → List Expr) where
    -- `make_foreignscan`, with the lists that are null empty.
    pub record ForeignScan : Type 0 where
      pub targetlist : List Expr
      pub qual : List Expr
      pub scanrelid : ℕ
      pub fdw_exprs : List Expr
      pub outer_plan : Option Plan

    -- All conditions are left to PostgreSQL.
    unfoldable pub get_foreign_plan :
        Option RelOptInfo → List Expr → List Clause → Option Plan → ForeignScan
    get_foreign_plan baserel tlist scan_clauses outer_plan = record {
      targetlist = tlist;
      qual = extract_actual_clauses scan_clauses false;
      scanrelid = relid_or_zero baserel;
      fdw_exprs = [];
      outer_plan = outer_plan;
    }
