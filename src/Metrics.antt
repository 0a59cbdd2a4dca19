-- ===== src/Metrics.antt =====
-- crates/rtt-core/src/metrics.rs: the durations of a request and their percentiles.
pub mod Percentiles
use rtt.Prelude.{
  ℕ, zero, suc, ◌-◌, ◌==◌, Bool, true, false, not, List, [], ◌∷◌, length, get_elem?, keep, map, min,
  leb, if◌then◌else◌, unwrap_or, saturating_sub,
}
use rtt.Order.{Text}

pub record TimestampRecord : Type 0 where
  pub t_trigger_rx : ℕ
  pub t_dispatch_q : ℕ
  pub t_exec_start : ℕ
  pub t_buf_ready : ℕ
  pub t_write_begin : ℕ
  pub t_write_end : ℕ
  pub t_first_resp_byte : ℕ
  pub t_headers_done : ℕ
  pub t_sign_start : ℕ
  pub t_sign_end : ℕ
  pub is_reconnect : Bool
  pub cf_ray_pop : Text
  pub connection_index : ℕ

abbrev pub queue_delay : TimestampRecord → ℕ
queue_delay r = saturating_sub r.t_exec_start r.t_trigger_rx

abbrev pub prep_time : TimestampRecord → ℕ
prep_time r = saturating_sub r.t_buf_ready r.t_exec_start

abbrev pub trigger_to_wire : TimestampRecord → ℕ
trigger_to_wire r = saturating_sub r.t_write_begin r.t_trigger_rx

abbrev pub write_duration : TimestampRecord → ℕ
write_duration r = saturating_sub r.t_write_end r.t_write_begin

abbrev pub write_to_first_byte : TimestampRecord → ℕ
write_to_first_byte r = saturating_sub r.t_first_resp_byte r.t_write_end

abbrev pub warm_ttfb : TimestampRecord → ℕ
warm_ttfb r = saturating_sub r.t_first_resp_byte r.t_write_begin

abbrev pub trigger_to_first_byte : TimestampRecord → ℕ
trigger_to_first_byte r = saturating_sub r.t_first_resp_byte r.t_trigger_rx

abbrev pub sign_duration : TimestampRecord → ℕ
sign_duration r = saturating_sub r.t_sign_end r.t_sign_start

pub record PercentileSet : Type 0 where
  pub p50 : ℕ
  pub p95 : ℕ
  pub p99 : ℕ
  pub p999 : ℕ
  pub largest : ℕ

abbrev pub no_percentiles : PercentileSet
no_percentiles = record { p50 = 0; p95 = 0; p99 = 0; p999 = 0; largest = 0 }

pub record StatsReport : Type 0 where
  pub sample_count : ℕ
  pub reconnect_count : ℕ
  pub of_queue_delay : PercentileSet
  pub of_prep_time : PercentileSet
  pub of_trigger_to_wire : PercentileSet
  pub of_write_duration : PercentileSet
  pub of_write_to_first_byte : PercentileSet
  pub of_warm_ttfb : PercentileSet
  pub of_trigger_to_first_byte : PercentileSet

-- `sort_unstable`: equal numbers cannot be told apart.
abbrev pub insert_sorted : ℕ → List ℕ → List ℕ
insert_sorted x [] = x ∷ []
insert_sorted x (y ∷ ys) = if leb x y then x ∷ y ∷ ys else y ∷ insert_sorted x ys

unfoldable pub sort : List ℕ → List ℕ
sort [] = []
sort (x ∷ xs) = insert_sorted x (sort xs)

-- `values[i]`; the callers' indices are in range.
abbrev pub at : List ℕ → ℕ → ℕ
at values i = unwrap_or (get_elem? values i) 0

abbrev is_reconnect_of : TimestampRecord → Bool
is_reconnect_of r = r.is_reconnect

-- `round_rank n p` is the rounded product of floats, with `p` in tenths of a percent.
module _ (round_rank : ℕ → ℕ → ℕ) where
  abbrev pub percentile_index : ℕ → ℕ → ℕ
  percentile_index n p = min (round_rank n p) (n - 1)

  abbrev pub ranked : List ℕ → ℕ → PercentileSet
  ranked values n = record {
    p50 = at values (percentile_index n 500);
    p95 = at values (percentile_index n 950);
    p99 = at values (percentile_index n 990);
    p999 = at values (percentile_index n 999);
    largest = at values (n - 1);
  }

  unfoldable pub percentiles : List ℕ → PercentileSet
  percentiles [] = no_percentiles
  percentiles (x ∷ xs) = ranked (sort (x ∷ xs)) (length (sort (x ∷ xs)))

  -- The aggregator is the list of the records that were added.
  unfoldable pub compute : List TimestampRecord → StatsReport
  compute records =
      let reconnect_count = length (keep is_reconnect_of records) in
      let warm = keep (λ r. not (is_reconnect_of r)) records in
      let sample_count = length warm in
      if sample_count == 0
      then record {
        sample_count = 0;
        reconnect_count = reconnect_count;
        of_queue_delay = no_percentiles;
        of_prep_time = no_percentiles;
        of_trigger_to_wire = no_percentiles;
        of_write_duration = no_percentiles;
        of_write_to_first_byte = no_percentiles;
        of_warm_ttfb = no_percentiles;
        of_trigger_to_first_byte = no_percentiles;
      }
      else record {
        sample_count = sample_count;
        reconnect_count = reconnect_count;
        of_queue_delay = percentiles (map queue_delay warm);
        of_prep_time = percentiles (map prep_time warm);
        of_trigger_to_wire = percentiles (map trigger_to_wire warm);
        of_write_duration = percentiles (map write_duration warm);
        of_write_to_first_byte = percentiles (map write_to_first_byte warm);
        of_warm_ttfb = percentiles (map warm_ttfb warm);
        of_trigger_to_first_byte = percentiles (map trigger_to_first_byte warm);
      }
