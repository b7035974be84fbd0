-- ===== src/Wrk/Totals.antt =====
-- What `Combine` makes of the numbers of requests.
use aws_k8s_tester.Common.{ℕ, ◌+◌, ◌%◌, ◌<◌, List, [], ◌∷◌, ◌≡◌, refl, ◌∙◌, foldl, arith}
use aws_k8s_tester.Common.Int.{pos}
use aws_k8s_tester.Wrk.Output.{Output, Library}
use aws_k8s_tester.Wrk.Combine.{combine_next, combine}

abbrev pub sum_requests : List Output → ℕ
sum_requests [] = 0
sum_requests (v ∷ vs) = v.total_requests + sum_requests vs

module _ (g : Library) where
  folded_total :
      (v : Output) (vs : List Output)
      → v.total_requests < 18446744073709551616
      → (foldl (combine_next g) v vs).total_requests
        ≡ (v.total_requests + sum_requests vs) % 18446744073709551616
  unfolding combine_next
  folded_total v [] h = omega (arith, h)
  folded_total v (u ∷ vs) h = folded_total (combine_next g v u) vs (omega arith) ∙ omega arith

  -- The result is that of one client: the first of the results gives its size.
  folded_clients :
      (v : Output) (vs : List Output)
      → ((foldl (combine_next g) v vs).threads ≡ v.threads)
        × ((foldl (combine_next g) v vs).connections ≡ v.connections)
        × ((foldl (combine_next g) v vs).endpoint ≡ v.endpoint)
  unfolding combine_next
  folded_clients v [] = (refl, refl, refl)
  folded_clients v (u ∷ vs) = folded_clients (combine_next g v u) vs

  -- For one result or more, whose first counts fewer than 2 ^ 64 requests: the combined requests are
  -- the sum of all requests modulo 2 ^ 64, the threads, the connections and the endpoint are those of
  -- the first result, and the four percentiles are 0.
  pub combine_totals :
      (z v : Output) (vs : List Output)
      → v.total_requests < 18446744073709551616
      → ((combine g z (v ∷ vs)).total_requests ≡ sum_requests (v ∷ vs) % 18446744073709551616)
        × ((combine g z (v ∷ vs)).threads ≡ v.threads)
        × ((combine g z (v ∷ vs)).connections ≡ v.connections)
        × ((combine g z (v ∷ vs)).endpoint ≡ v.endpoint)
        × ((combine g z (v ∷ vs)).latency_50_pct ≡ pos 0)
        × ((combine g z (v ∷ vs)).latency_75_pct ≡ pos 0)
        × ((combine g z (v ∷ vs)).latency_90_pct ≡ pos 0)
        × ((combine g z (v ∷ vs)).latency_99_pct ≡ pos 0)
  unfolding combine
  combine_totals z v vs h =
      let (t, c, e) = folded_clients v vs in (folded_total v vs h, t, c, e, refl, refl, refl, refl)
