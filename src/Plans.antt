-- ===== src/Plans.antt =====
-- plan.go and server/plan.go. The bound request body is an argument, `none` where `render.Bind` fails;
-- so is what `uuid.Parse` makes of a reference. A price, a float64, is any type.
use Prim.Native.String.{String}
use logtrace_backend.Common.{Option, List, map, if◌then◌else◌}
use logtrace_backend.GoText.{is_string_empty}
use logtrace_backend.Domain.{Uuid, nil_uuid, Time, other, error_text, Result, ok, err}
use logtrace_backend.Http.{
  Handler, NoBody, failure, success, success_with, respond, settle, ask, act, present, ◌>>=◌, ◌>>◌,
}

pub record Plan (Price : Type 0) : Type 0 where
  pub id : Uuid
  pub name : String
  pub price : Price
  pub description : String
  pub features : List String
  pub period : String
  pub cta : String
  pub created_at : Time

pub record PlanRepository (Price W : Type 0) : Type 0 where
  pub create : Plan Price → W → Result (Unit {0}) × W
  pub list : Uuid → W → Result (Plan Price)
  pub list_all : W → Result (List (Plan Price))
  pub update : Plan Price → W → Result (Plan Price) × W
  pub delete : Uuid → W → Result (Unit {0}) × W

pub record PlanRequest (Price : Type 0) : Type 0 where
  pub name : String
  pub price : Price
  pub description : String
  pub features : List String
  pub period : String
  pub cta : String

module _ {Price W : Type 0} (to_lower : String → String) (plans : PlanRepository Price W) where
  unfoldable pub validate_plan : PlanRequest Price → Result (Unit {0})
  validate_plan p = if is_string_empty p.name then err (other "plan name is required") else ok tt

  -- `strings.ToLower` of each feature.
  unfoldable pub plan_of : Uuid → PlanRequest Price → Plan Price
  plan_of id req = record {
    id = id;
    name = req.name;
    price = req.price;
    description = req.description;
    features = map to_lower req.features;
    period = req.period;
    cta = req.cta;
    created_at = 0;
  }

  unfoldable pub create_plan : Option (PlanRequest Price) → Handler W NoBody
  create_plan bound = do
    req ← present bound (failure 400 "failed to validate payload")
    settle (validate_plan req) (λ e. failure 400 (error_text e))
    act (plans.create (plan_of nil_uuid req)) (λ _. failure 500 "failed to save the plan")
    respond (success 201 "plan has been created successfully")

  unfoldable pub list_plan : Option Uuid → Handler W (Plan Price)
  list_plan reference = do
    id ← present reference (failure 400 "invalid plan ID format")
    plan ← ask (plans.list id) (λ _. failure 500 "failed to list the plan by it's ID")
    respond (success_with 200 "Plan has been fetched successfully" plan)

  unfoldable pub list_all_plans : Handler W (List (Plan Price))
  list_all_plans = do
    found ← ask plans.list_all (λ _. failure 500 "failed to list all plans")
    respond (success_with 200 "Plans have been fetched successfully" found)

  -- Unlike the creation, this does not call Validate.
  unfoldable pub update_plan : Option Uuid → Option (PlanRequest Price) → Handler W (Plan Price)
  update_plan reference bound = do
    id ← present reference (failure 400 "invalid plan ID format")
    req ← present bound (failure 400 "failed to validate payload")
    updated ← act (plans.update (plan_of id req)) (λ _. failure 500 "failed to update the plan")
    respond (success_with 200 "Plan has been updated successfully" updated)

  unfoldable pub delete_plan : Option Uuid → Handler W NoBody
  delete_plan reference = do
    id ← present reference (failure 400 "invalid plan ID format")
    act (plans.delete id) (λ _. failure 500 "failed to delete the plan")
    respond (success 200 "Plan has been deleted successfully")
