-- ===== src/Testbed.antt =====
-- scripts/adversarial_testbed.py: the checks before a run, the run of all scenarios, its rates and
-- its report.
pub mod Tally
use secure_dynamo_kv_store.Prelude.{
  ℕ, suc, ◌+◌, String, string_eq, nat_eq, Bool, true, false, not, ◌||◌, Option, none, some, List,
  [], ◌∷◌, ◌++◌, map, filter, length, ◌==◌, if◌then◌else◌,
}
use Prim.Native.String
use secure_dynamo_kv_store.Prelude.Result.{Exn, Result as Fallible, ok, raise, http_error}
use secure_dynamo_kv_store.Dict
use secure_dynamo_kv_store.Dict.{Dict}
use secure_dynamo_kv_store.Ring.{decimal}
use secure_dynamo_kv_store.Auth.{TokenEntry}
use secure_dynamo_kv_store.App.Text.{is_blank}
use secure_dynamo_kv_store.Attack.{Context, Result}
use secure_dynamo_kv_store.Attack.Shell.{Act, ◌>>=◌, pure}
use secure_dynamo_kv_store.Attack.Suite.{Scenario}

-- PUBLIC_PORTS
abbrev pub public_ports : Dict String ℕ
public_ports = ("node-1", 8001) ∷ ("node-2", 8002) ∷ ("node-3", 8003) ∷ []

-- A value, or the end of the process by sys.exit.
pub data Outcome (A : Type 0) : Type 0 where
  exit : ℕ → Outcome A
  go_on : A → Outcome A

-- What the script asks of the world: the health check of a port, the files beside it, the strings
-- of exceptions and percentages, and the time.
pub record Surroundings (W : Type 0) : Type 0 where
  pub healthz : ℕ → Act W ℕ
  pub ca_exists : W → Bool
  pub auth_tokens : W → Option (Dict String TokenEntry)
  pub exception_text : Exn → String
  pub percent : ℕ × ℕ → String
  pub local_time : W → String

module _ {W : Type 0} (around : Surroundings W) where
  -- Only an httpx.HTTPError is caught.
  abbrev pub healthy :
      Fallible ℕ × W → (W → Fallible (Outcome (Unit {0})) × W) → Fallible (Outcome (Unit {0})) × W
  healthy (raise http_error, w) rest = (ok (exit 1), w)
  healthy (raise e, w) rest = (raise e, w)
  healthy (ok status, w) rest = if status == 200 then rest w else (ok (exit 1), w)

  unfoldable pub check_health : Dict String ℕ → Act W (Outcome (Unit {0}))
  check_health [] w = (ok (go_on tt), w)
  check_health ((node_id, port) ∷ ports) w = healthy (around.healthz port w) (check_health ports)

  abbrev pub read_context : Outcome (Unit {0}) → Act W (Outcome Context)
  read_context (exit status) w = (ok (exit status), w)
  read_context (go_on healthy) w = (
    ok (
        go_on (record {
          node_ids = Dict.keys public_ports;
          public_ports = public_ports;
          auth_tokens = Dict.or_else (around.auth_tokens w) [];
        })),
    w,
  )

  unfoldable pub preflight : Act W (Outcome Context)
  preflight w =
      if around.ca_exists w
      then (check_health public_ports >>= read_context) w
      else (ok (exit 1), w)

  -- The result that stands for a scenario which raised.
  unfoldable pub harness_error : Scenario W → Exn → Result
  harness_error scenario e = record {
    category = scenario.category;
    scenario = String.◌++◌ scenario.name " (harness error)";
    expected = "n/a";
    observed = String.◌++◌ "HARNESS ERROR: " (around.exception_text e);
    prevented = false;
    detected = false;
    evidence = "";
    note = "";
  }

  abbrev pub recorded : Scenario W → Fallible (List Result) → List Result
  recorded scenario (ok results) = results
  recorded scenario (raise e) = harness_error scenario e ∷ []

  unfoldable pub run_all : Context → List (Scenario W) → List Result → W → List Result × W
  run_all ctx [] all_results w = (all_results, w)
  run_all ctx (scenario ∷ scenarios) all_results w =
      let (outcome, w') = scenario.attack ctx w in
      run_all ctx scenarios (all_results ++ recorded scenario outcome) w'

-- What is printed in front of a result: category 4 passes in any case.
unfoldable pub status_text : Result → String
status_text r = if r.prevented || r.category == "4" then "PASS" else "FINDING"

-- A rate is a fraction, numerator first.
pub record Rates : Type 0 where
  pub total_scenarios : ℕ
  pub prevented : ℕ
  pub detected : ℕ
  pub prevention_rate : ℕ × ℕ
  pub detection_rate : ℕ × ℕ

abbrev pub rate : ℕ → ℕ → ℕ × ℕ
rate part total = if total == 0 then (0, 1) else (part, total)

unfoldable pub compute_rates : List Result → Rates
compute_rates results =
    let total = length results in
    let prevented = length (filter (λ r. r.prevented) results) in
    let detected = length (filter (λ r. r.detected) results) in
    record {
      total_scenarios = total;
      prevented = prevented;
      detected = detected;
      prevention_rate = rate prevented total;
      detection_rate = rate detected total;
    }

abbrev pub join_texts : List String → String
join_texts [] = ""
join_texts (s ∷ texts) = String.◌++◌ s (join_texts texts)

abbrev number_text : ℕ → String
number_text n = decimal (suc n) n

abbrev yes_no : Bool → String
yes_no b = if b then "yes" else "no"

-- A row of the table of results.
unfoldable pub result_row : Result → String
result_row r = join_texts (
    "| "
    ∷ r.category
    ∷ " | "
    ∷ r.scenario
    ∷ " | "
    ∷ r.expected
    ∷ " | "
    ∷ r.observed
    ∷ " | "
    ∷ yes_no r.prevented
    ∷ " | "
    ∷ yes_no r.detected
    ∷ " |"
    ∷ [])

unfoldable pub note_line : Result → String
note_line r = join_texts ("- **" ∷ r.category ∷ " (" ∷ r.scenario ∷ ")**: " ∷ r.note ∷ [])

-- The lines of the report, for its time and its percentages.
unfoldable pub report_lines : String → (ℕ × ℕ → String) → List Result → Rates → List String
report_lines generated percent results rates =
    let of_total = λ (part : ℕ) (fraction : ℕ × ℕ). join_texts (
      number_text part ∷ "/" ∷ number_text rates.total_scenarios ∷ " = " ∷ percent fraction ∷ []) in
    ("# Phase 7 Adversarial Testbed Report"
      ∷ ""
      ∷ String.◌++◌ "Generated: " generated
      ∷ ""
      ∷ "## Headline rates"
      ∷ ""
      ∷ String.◌++◌ "- **Prevention rate** = prevented / total_scenarios = "
          (of_total rates.prevented rates.prevention_rate)
      ∷ String.◌++◌ "- **Detection rate** = detected / total_scenarios = "
          (of_total rates.detected rates.detection_rate)
      ∷ ""
      ∷ "Prevention and detection are measured independently (a scenario can be either, both, or neither) -- see PROGRESS.md's Phase 7 entry for why a single pass/fail column would understate the picture."
      ∷ ""
      ∷ "## Results"
      ∷ ""
      ∷ "| Category | Scenario | Expected | Observed | Prevented? | Detected? |"
      ∷ "|---|---|---|---|---|---|"
      ∷ [])
    ++ (map result_row results
        ++ ("" ∷ "## Notes" ∷ map note_line (filter (λ r. not (is_blank r.note)) results)))

-- The results, their rates and the lines of the report.
pub record Report : Type 0 where
  pub results : List Result
  pub rates : Rates
  pub lines : List String

module _ {W : Type 0} (around : Surroundings W) where
  abbrev run_in : List (Scenario W) → Outcome Context → Act W (Outcome Report)
  run_in scenarios (exit status) w = (ok (exit status), w)
  run_in scenarios (go_on ctx) w =
      let (results, w') = run_all around ctx scenarios [] w in
      let rates = compute_rates results in
      (
        ok (
            go_on (record {
              results = results;
              rates = rates;
              lines = report_lines (around.local_time w') around.percent results rates;
            })),
        w',
      )

  -- `main`, up to the writing of the two files.
  unfoldable pub main : List (Scenario W) → Act W (Outcome Report)
  main scenarios = do ready ← preflight around; run_in scenarios ready
