-- ===== src/Pipeline/Queries.antt =====
-- What a query over the store and the hot window answers.
use infra_sentinel.Prelude.{ℕ, ◌≡◌, List, map, min, length, length-take, length-map, arith}
use infra_sentinel.Prelude.Sort.{sort, length-sort}
use infra_sentinel.Aggregation.Key.{key_eq}
use infra_sentinel.Aggregation.{Arithmetic, MetricAccumulator, all_buckets}
use infra_sentinel.Pipeline.{
  Criteria, QueryPoint, as_query_point, overlay, query_points, requested, earlier,
}

module _ {V : Type 0} (a : Arithmetic V) where
  -- An answer has as many rows as the overlay of the stored rows and the buffered buckets has
  -- buckets, up to the query's limit.
  pub query_points-length :
      (c : Criteria) (resolution : ℕ) (persisted : List (QueryPoint V)) (acc : MetricAccumulator V)
      → let merged =
          overlay a c (requested a c.bucket_seconds resolution) persisted (all_buckets acc) in
        length (query_points a c resolution persisted acc)
        ≡ min c.limit (length (all_buckets merged))
  unfolding query_points
  query_points-length c resolution persisted acc =
      let merged =
        overlay a c (requested a c.bucket_seconds resolution) persisted (all_buckets acc) in
      let rows = map (as_query_point a) (all_buckets merged) in
      omega (
        arith,
        length-take c.limit (sort earlier rows),
        length-sort earlier rows,
        length-map (as_query_point a) (all_buckets merged),
      )
