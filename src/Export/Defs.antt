-- ===== src/Export/Defs.antt =====
-- The query, the workers and the file that `main` writes.
use fluxa.Base.{
  ℕ, zero, suc, String, ◌==◌, Bool, Option, none, some, List, [], ◌∷◌, ◌++◌, map, ltb,
  if◌then◌else◌, get_elem?, keep, sort_by,
}
use fluxa.Domain.{Metadata, Result, ok, err, plain, Event}
use fluxa.World.{Codec, Env, M, pure, ◌>>=◌, on_result, EventRow, read}
use fluxa.Features.{store_features, build, header, row, meta_str}

-- `eventRow`.
pub record LabelledEvent : Type 0 where
  pub ev : Event
  pub label : String

abbrev pub label_key : String
label_key = "is_fraud_ground_truth"

-- `json.Unmarshal` into a map that is there already, its error ignored.
abbrev pub scan_metadata : Result (Option Metadata) → Option Metadata
scan_metadata (ok m) = m
scan_metadata (err _) = some []

abbrev pub label_of : Option Metadata → String
label_of m = let label = meta_str m label_key in if label == "" then "0" else label

-- The loop over the rows of the query. The event's id stays
-- empty.
unfoldable pub scan_row : Codec → EventRow → LabelledEvent
scan_row codec r =
    let meta = scan_metadata (codec.parse_metadata r.metadata_json) in
    record {
      ev = record {
        event_id = "";
        user_id = r.user_id;
        amount = r.amount;
        currency = r.currency;
        merchant = r.merchant;
        timestamp = r.ts;
        metadata = meta;
      };
      label = label_of meta;
    }

abbrev pub earlier : EventRow → EventRow → Bool
earlier a b = ltb a.ts b.ts

-- One line of the file, and `results[i]` while no worker has filled it.
abbrev pub Line : Type 0
Line = List String

abbrev pub Slots : Type 0
Slots = List (Option Line)

abbrev pub blank : List LabelledEvent → Slots
blank [] = []
blank (_ ∷ es) = none ∷ blank es

abbrev pub set {ℓ} : {A : Type ℓ} → List A → ℕ → A → List A
set [] n a = []
set (x ∷ xs) zero a = a ∷ xs
set (x ∷ xs) (suc n) a = x ∷ set xs n a

-- A slot that nobody filled is written as an empty record.
abbrev pub line_of : Option Line → Line
line_of none = []
line_of (some l) = l

-- The query: `has_label` is the test `->> … IS NOT NULL` of the database on a JSON text.
abbrev pub labelled : (String → Bool) → List EventRow → List EventRow
labelled has_label rows = sort_by earlier (keep (λ r. has_label r.metadata_json) rows)

module _ (env : Env) where
  -- The workers: `order` is the order in which they finish the indices that they take from the
  -- channel.
  unfoldable pub run_jobs : List LabelledEvent → List ℕ → Slots → M (Result Slots)
  run_jobs events [] results = pure (ok results)
  run_jobs events (i ∷ order) results = elim (get_elem? events i) [
    | none ↦ pure (err (plain "index out of range"))
    | some e ↦ do
      f ← build env.codec (store_features env) e.ev
      on_result f (λ x. pure (err x))
          (λ f. run_jobs events order (set results i (some (row env.codec f e.label))))
  ]

  -- `main`, from the query to the lines that the writer gets.
  unfoldable pub export : (String → Bool) → List ℕ → M (Result (List Line))
  export has_label order = do
    rows ← read env (λ w. labelled has_label w.events)
    on_result rows (λ x. pure (err x))
        (λ rows.
          let events = map (scan_row env.codec) rows in
          do
            results ← run_jobs events order (blank events)
            on_result results (λ x. pure (err x))
                (λ slots. pure (ok ((header ++ "label" ∷ []) ∷ map line_of slots))))
