-- ===== src/Metrics/Counts.antt =====
-- src/dynamokv/metrics.py: the counter and the histogram after a sequence of requests.
use secure_dynamo_kv_store.Prelude.{ℕ, ◌+◌, ◌-◌, string_eq, List, [], ◌∷◌, ◌++◌, if◌then◌else◌}
use secure_dynamo_kv_store.Prelude.Result.{Result, ok, raise}
use secure_dynamo_kv_store.Metrics.{Labels, same_route, same_labels, Handled, labels_of}

abbrev one_answer : Labels → Handled → Result ℕ → ℕ
one_answer l request (raise e) = 0
one_answer l request (ok status_code) =
    if same_labels (labels_of request status_code) l then 1 else 0

-- How many of the requests were answered with these labels.
unfoldable pub answered : Labels → List Handled → ℕ
answered l [] = 0
answered l (request ∷ requests) = one_answer l request request.answer + answered l requests

abbrev one_latency : Labels → Handled → Result ℕ → List ℕ
one_latency l request (raise e) = []
one_latency l request (ok status_code) =
    if same_route (labels_of request status_code) l
    then (request.finish - request.start) ∷ []
    else []

-- How long the answered requests of this method and path took, in order.
unfoldable pub latencies : Labels → List Handled → List ℕ
latencies l [] = []
latencies l (request ∷ requests) = one_latency l request request.answer ++ latencies l requests
