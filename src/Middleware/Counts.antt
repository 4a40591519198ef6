-- ===== src/Middleware/Counts.antt =====
-- server/internal/httpx/middleware.go: the Metrics middleware, with the collectors of
-- server/internal/metrics/metrics.go.
use bumshi.Common.{ℕ, List, [], ◌∷◌, Bytes, codes}
use bumshi.Strings.{itoa}
use bumshi.Metrics.{
  Floats, Vec, HistogramVec, add_counter, inc_counter, add_gauge, inc_gauge, dec_gauge, observe,
}
use bumshi.Middleware.{Request, Run, Handler, new_recorder, recorded}

module _ (fl : Floats) where
  -- `HTTPCollectors`
  pub record HttpCollectors : Type 0 where
    pub requests : Vec fl
    pub in_flight : Vec fl
    pub duration : HistogramVec fl

  -- `NewHTTPCollectors`, for the default bounds
  unfoldable pub new_http_collectors : List fl.Float → HttpCollectors
  new_http_collectors bounds = record {
    requests = record {
      name = codes "bumshi_http_requests_total";
      help = codes "Total number of HTTP requests processed.";
      labels = codes "method" ∷ codes "code" ∷ [];
      values = [];
    };
    in_flight = record {
      name = codes "bumshi_http_requests_in_flight";
      help = codes "Number of HTTP requests currently being served.";
      labels = [];
      values = [];
    };
    duration = record {
      name = codes "bumshi_http_request_duration_seconds";
      help = codes "HTTP request latency in seconds.";
      labels = codes "method" ∷ [];
      buckets = bounds;
      values = [];
    };
  }

  -- What is counted before a request, and after it, for the status that was recorded.
  unfoldable pub begin_request : HttpCollectors → HttpCollectors
  unfolding add_gauge
  begin_request c = record c { in_flight = inc_gauge fl c.in_flight [] }

  unfoldable pub end_request : HttpCollectors → Bytes → ℕ → fl.Float → HttpCollectors
  unfolding add_gauge add_counter observe itoa
  end_request c method status elapsed = record {
    requests = inc_counter fl c.requests (method ∷ itoa status ∷ []);
    in_flight = dec_gauge fl c.in_flight [];
    duration = observe fl c.duration elapsed (method ∷ []);
  }

  -- `Metrics`: a panic passes through, and is counted.
  unfoldable pub metrics : fl.Float → Handler → HttpCollectors → Request → Run × HttpCollectors
  unfolding recorded begin_request end_request
  metrics elapsed next c r =
      let done = next r in
      let rec = recorded new_recorder done.acts in
      (
        record { acts = rec.1; panics = done.panics },
        end_request (begin_request c) r.method rec.0.status elapsed,
      )
