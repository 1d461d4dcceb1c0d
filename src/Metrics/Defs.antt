-- ===== src/Metrics/Defs.antt =====
-- `NewMetrics`, `IncCounter`, `ObserveHistogram` and `toPromLabels`. The vectors of the Prometheus
-- client are known by their names and the names of their labels.
use fluxa.Base.{
  String, ◌==◌, Bool, true, false, ◌&&◌, Option, none, some, List, [], ◌∷◌, lookup, insert,
}
use fluxa.World.{Sample, counter, histogram}

-- `Metrics`.
pub record Metrics : Type 0 where
  pub counters : List (String × List String)
  pub histograms : List (String × List String)

-- `NewMetrics`, whose argument the body does not read.
unfoldable pub new_metrics : String → Metrics
new_metrics service = record {
  counters =
      ("events_ingested_total", "service" ∷ [])
      ∷ ("events_processed_total", "service" ∷ "status" ∷ [])
      ∷ ("fraud_flags_total", "rule" ∷ [])
      ∷ ("query_total", "status" ∷ [])
      ∷ ("alerts_consumed_total", [])
      ∷ ("fraud_flags_grpc_total", "rule" ∷ [])
      ∷ [];
  histograms =
      ("ingest_latency_seconds", "service" ∷ [])
      ∷ ("process_latency_seconds", "service" ∷ [])
      ∷ ("fraud_eval_latency_seconds", "service" ∷ [])
      ∷ [];
}

abbrev fold_labels : List String → List (String × String) → List (String × String)
fold_labels [] labels = labels
fold_labels (_ ∷ []) labels = labels
fold_labels (label ∷ value ∷ rest) labels = fold_labels rest (insert label value labels)

-- `toPromLabels`: pairs of a label and its value, the last value of a label; an odd end is left out.
unfoldable pub to_prom_labels : List String → List (String × String)
to_prom_labels pairs = fold_labels pairs []

-- What a call does with a vector: it is skipped, or it reaches the vector with these labels.
pub data Effect : Type 0 where
  skipped : Effect
  reached : List String → List (String × String) → Effect

abbrev on_vector : Option (List String) → List String → Effect
on_vector none pairs = skipped
on_vector (some names) pairs = reached names (to_prom_labels pairs)

-- `IncCounter` and `ObserveHistogram`.
unfoldable pub record_sample : Metrics → Sample → Effect
record_sample m (counter name pairs) = on_vector (lookup name m.counters) pairs
record_sample m (histogram name pairs) = on_vector (lookup name m.histograms) pairs

-- Whether the vector gets exactly the labels that it was registered with, each with a value.
abbrev same_names : List String → List (String × String) → Bool
same_names [] [] = true
same_names (name ∷ names) ((label, _) ∷ labels) = name == label && same_names names labels
same_names _ _ = false

abbrev pub fits_vector : Effect → Bool
fits_vector skipped = false
fits_vector (reached names labels) = same_names names labels

abbrev pub all_registered : Metrics → List Sample → Bool
all_registered m [] = true
all_registered m (s ∷ ss) = fits_vector (record_sample m s) && all_registered m ss
