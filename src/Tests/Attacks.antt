-- ===== src/Tests/Attacks.antt =====
-- Attacks on a node of one, and a run of two scenarios of which one raises.
use secure_dynamo_kv_store.Prelude.{
  ℕ, ◌+◌, ◌≤◌, ◌≡◌, refl, ◌⊎◌, inl, inr, String, string_eq, ◌==◌, true, false, Option, none, some,
  List, [], ◌∷◌, length, All, Bool-cases,
}
use secure_dynamo_kv_store.Prelude.Int.{pos}
use secure_dynamo_kv_store.Prelude.Result.{ok, raise, http_error}
use secure_dynamo_kv_store.Dict
use secure_dynamo_kv_store.Dict.{Dict}
use secure_dynamo_kv_store.Auth.{TokenEntry}
use secure_dynamo_kv_store.Gossip
use secure_dynamo_kv_store.HintStore.{Blob}
use secure_dynamo_kv_store.Storage.{StorageBackend}
use secure_dynamo_kv_store.Storage.Memory.{memory_storage}
use secure_dynamo_kv_store.Node.Replica.{Node, Stored}
use secure_dynamo_kv_store.Node.Network.{answered, Cluster}
use secure_dynamo_kv_store.Node.Client.{Schedule}
use secure_dynamo_kv_store.Attack.{Context, Result, Completed, object}
use secure_dynamo_kv_store.Attack.Shell.{pure, Outside, OutsideLaws}
use secure_dynamo_kv_store.Attack.Liveness.{gossip_partition_override, scenario_3_gossip_forgery}
use secure_dynamo_kv_store.Attack.Liveness.Override.{scenario_3-override}
use secure_dynamo_kv_store.Attack.Bypass.{scenario_9_auth_bypass}
use secure_dynamo_kv_store.Attack.Bypass.Statuses.{served, scenario_9-prevented}
use secure_dynamo_kv_store.Attack.Suite.{Scenario}
use secure_dynamo_kv_store.Testbed.{Surroundings, compute_rates, run_all, public_ports}
use secure_dynamo_kv_store.Testbed.Tally.{outcomes, returned, raised, compute_rates-run_all}

-- The world, where only time passes and the override file is written.
record World : Type 0 where
  clock : ℕ
  override : Option String

abbrev silent : Completed
silent = record { stdout = ""; stderr = ""; returncode = pos 0 }

abbrev outside : Outside World
outside = record {
  run = λ node_id code timeout w. (ok silent, record w { clock = w.clock + 100 });
  compose_up = pure tt;
  http = λ request url. pure 200;
  override = λ w. w.override;
  write_override = λ text w. record w { override = some text };
  unlink_override = λ w. record w { override = none };
  sleep = λ time w. record w { clock = w.clock + time };
  monotonic = λ w. w.clock;
  loads = λ text. object [];
  dumps = λ fields. "";
  two_decimals = λ time. "0.00";
}

outside-laws : OutsideLaws outside
outside-laws = record {
  override-run = λ node_id code timeout w. refl;
  override-compose_up = λ w. refl;
  override-sleep = λ time w. refl;
  override-write = λ text w. refl;
  override-unlink = λ w. refl;
}

abbrev entry : TokenEntry
entry = record { id = some "reader"; namespaces = some (("cart", "read" ∷ []) ∷ []) }

abbrev tokens : Dict String TokenEntry
tokens = ("secret", entry) ∷ []

abbrev ctx : Context
ctx = record {
  node_ids = Dict.keys public_ports;
  public_ports = public_ports;
  auth_tokens = tokens;
}

abbrev world : World
world = record { clock = 0; override = some "services:" }

scenario_3-override_example :
    (scenario_3_gossip_forgery outside (λ measured. "") ctx world).1.override
    ≡ some gossip_partition_override
scenario_3-override_example = scenario_3-override outside outside-laws (λ measured. "") ctx world

abbrev replayed : Result
replayed = record {
  category = "4";
  scenario = "replay";
  expected = "PREVENTED";
  observed = "PREVENTED";
  prevented = true;
  detected = false;
  evidence = "";
  note = "";
}

abbrev two_scenarios : List (Scenario World)
two_scenarios =
    record {
      category = "4";
      name = "scenario_4_replay_defense";
      attack = λ c. pure (replayed ∷ []);
    }
    ∷ record {
      category = "9";
      name = "scenario_9_auth_bypass";
      attack = λ c w. (raise http_error, w);
    }
    ∷ []

abbrev around : Surroundings World
around = record {
  healthz = λ port. pure 200;
  ca_exists = λ w. true;
  auth_tokens = λ w. some tokens;
  exception_text = λ e. "ConnectError: refused";
  percent = λ fraction. "50%";
  local_time = λ w. "2026-01-01 00:00:00";
}

compute_rates-run_all_example :
    let rates = compute_rates (run_all around ctx two_scenarios [] world).0 in
    let all = outcomes ctx two_scenarios world in
    let own = compute_rates (returned all) in
    (rates.total_scenarios ≡ own.total_scenarios + raised all)
    × (rates.prevented ≡ own.prevented)
    × (rates.detected ≡ own.detected)
    × (rates.prevented + raised all ≤ rates.total_scenarios)
compute_rates-run_all_example = compute_rates-run_all around ctx two_scenarios world

abbrev sb : StorageBackend (Stored ℕ)
sb = memory_storage

abbrev hb : StorageBackend (Blob ℕ)
hb = memory_storage

abbrev node : Node
node = record {
  node_id = "node-1";
  ring = record {
    virtual_nodes = 1;
    ring = (10, "node-1") ∷ [];
    sorted_hashes = 10 ∷ [];
    nodes = "node-1" ∷ [];
  };
  peers = [];
  n = 1;
  r = 1;
  w = 1;
  gossip_failure_timeout = 6;
}

abbrev alone : Cluster sb hb
alone =
    ("node-1", record { storage = []; hint_store = []; gossip_state = Gossip.new "node-1" 0 }) ∷ []

abbrev in_order : Schedule
in_order = record { order = λ l. l; net = λ host. answered }

abbrev beside : Outside (Cluster sb hb)
beside = record {
  run = λ node_id code timeout. pure silent;
  compose_up = pure tt;
  http = λ request url. pure 200;
  override = λ w. none;
  write_override = λ text w. w;
  unlink_override = λ w. w;
  sleep = λ time w. w;
  monotonic = λ w. 0;
  loads = λ text. object [];
  dumps = λ fields. "";
  two_decimals = λ time. "0.00";
}

abbrev nobody : Option TokenEntry
nobody = none

named :
    (token : String) (e : TokenEntry) → Dict.get tokens token ≡ some e → Dict.is_some e.id ≡ true
unfolding Dict.get
named token e h = elim (Bool-cases ("secret" == token)) [
  | inl s ↦ let known : some entry ≡ some e = rw s at h in let same : entry ≡ e = cc in rw (← same)
  | inr s ↦ let unknown : nobody ≡ some e = rw s at h in cc
]

abbrev attacked : Outside (Cluster sb hb)
attacked = served (λ text. 5) sb hb tokens node 7 0 in_order (λ host. answered) in_order beside

scenario_9-prevented_example :
    (results : List Result) × (cl' : Cluster sb hb) × (scenario_9_auth_bypass attacked ctx alone
      ≡ (ok results, cl'))
    × (3 ≤ length results)
    × All (λ r. (r.prevented ≡ true) ⊎ (r.expected ≡ "200")) results
unfolding Dict.get
scenario_9-prevented_example =
    scenario_9-prevented (λ text. 5) sb hb tokens node 7 0 in_order (λ host. answered) in_order
      beside ctx 8001 alone (refl, tt) named refl refl refl
