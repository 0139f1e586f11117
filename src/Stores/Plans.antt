-- ===== src/Stores/Plans.antt =====
-- internal/datastore/postgres/plan.go. The listing of all plans has no condition and no limit, so its
-- select is a call of its own.
use Prim.Native.String.{String}
use logtrace_backend.Common.{List}
use logtrace_backend.Domain.{Uuid, Result}
use logtrace_backend.Plans.{Plan, PlanRepository}
use logtrace_backend.Sql.{Table, Statements}
use logtrace_backend.Stores.ApiKeys.{where_uuid}

module _ {Price W : Type 0} (plans : Table (Plan Price) W) (statements : Statements (Plan Price) W)
    (select_all : String → W → Result (List (Plan Price))) where
  unfoldable pub create : Plan Price → W → Result (Unit {0}) × W
  create p w = plans.insert p w

  unfoldable pub list : Uuid → W → Result (Plan Price)
  list id w = plans.first (where_uuid "id = ?" id) w

  unfoldable pub list_all : W → Result (List (Plan Price))
  list_all w = select_all "created_at DESC" w

  unfoldable pub update : Plan Price → W → Result (Plan Price) × W
  update p w = statements.update_given p (where_uuid "id = ?" p.id) w

  unfoldable pub delete : Uuid → W → Result (Unit {0}) × W
  delete id w = statements.delete (where_uuid "id = ?" id) w

  -- `NewPlanRepository`
  abbrev pub stored_plans : PlanRepository Price W
  stored_plans = record {
    create = create;
    list = list;
    list_all = list_all;
    update = update;
    delete = delete;
  }
