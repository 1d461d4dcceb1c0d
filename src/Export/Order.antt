-- ===== src/Export/Order.antt =====
-- The training file does not depend on the order in which the workers finish.
use mathlib.Core.List.{Memᴰ}
use mathlib.Core.List.Memᴰ
use fluxa.Base.{
  ℕ, ◌<◌, String, Bool, some, List, [], ◌∷◌, ◌++◌, map, ◌≡◌, refl, ap, sym, ◌∙◌, ◌⊎◌, inl, inr,
  arith, length, get_elem?, keep, All,
}
use fluxa.Domain.{Event, ok}
use fluxa.World.{Codec, Env, World, EventRow, done, next, read}
use fluxa.Store.{
  is_as_of, is_before, max_ts, max_amount, count_user_events_as_of, user_amount_stats_as_of,
}
use fluxa.Features.{Features, store_features, build, header, row, since_prev, meta_str}
use fluxa.Export.Slots.{
  list_ext, length-set, get_elem?-set, get_elem?-map, length-map, length-blank, get_elem?-in,
}
use fluxa.Export.Defs.{
  LabelledEvent, scan_row, Line, Slots, blank, set, line_of, labelled, run_jobs, export,
}

-- The features of an event among the stored events, with no calls made.
unfoldable pub features_of : Codec → List EventRow → Event → Features
features_of codec events e =
    let counted = λ (window : ℕ). length (keep (is_as_of e.user_id e.timestamp window) events) in
    let hour = keep (is_as_of e.user_id e.timestamp 3600) events in
    record {
      amount = e.amount;
      velocity_count_60s = counted 60;
      velocity_count_3600s = counted 3600;
      velocity_count_86400s = counted 86400;
      secs_since_prev_event =
          since_prev e.timestamp (max_ts (keep (is_before e.user_id e.timestamp) events));
      user_amt_sum_3600s = codec.sum_decimals (map (λ (r : EventRow). r.amount) hour);
      user_amt_max_3600s = max_amount hour;
      currency = codec.to_lower e.currency;
      product_code = meta_str e.metadata "product_code";
      card_network = meta_str e.metadata "card_network";
      merchant = codec.to_lower e.merchant;
      email_domain = meta_str e.metadata "email_domain";
    }

abbrev pub training_line : Codec → List EventRow → LabelledEvent → Line
training_line codec events e = row codec (features_of codec events e.ev) e.label

build-features_of :
    (env : Env) (e : Event) (w : World)
    → ((n : ℕ) → env.reply n ≡ done)
    → ((build env.codec (store_features env) e w).0 ≡ ok (features_of env.codec w.events e))
      × ((build env.codec (store_features env) e w).1.events ≡ w.events)
unfolding build features_of count_user_events_as_of user_amount_stats_as_of read
build-features_of env e w quiet = (simp (quiet), simp (quiet))

-- The slots that hold their line of the sequential file.
abbrev IsFilled : Env → List EventRow → List LabelledEvent → Slots → ℕ → Type 0
IsFilled env table events slots i =
    get_elem? slots i ≡ get_elem? (map (λ e. some (training_line env.codec table e)) events) i

IsFilled-set :
    (env : Env) (table : List EventRow) (events : List LabelledEvent) (slots : Slots) (i j : ℕ)
    (e : LabelledEvent)
    → get_elem? events i ≡ some e
    → j < length slots
    → (j ≡ i) ⊎ IsFilled env table events slots j
    → IsFilled env table events (set slots i (some (training_line env.codec table e))) j
IsFilled-set env table events slots i j e at h k =
    let f = λ (e : LabelledEvent). some (training_line env.codec table e) in
    elim (get_elem?-set slots i j (f e) h) [
      | inl (same, g) ↦ rw same (rw same at g ∙ sym (get_elem?-map f events i e at))
      | inr (other, g) ↦ elim k [ inl same ↦ absurd (other same) | inr filled ↦ g ∙ filled ]
    ]

IsFilled-next :
    (env : Env) (table : List EventRow) (events : List LabelledEvent) (slots : Slots) (i j : ℕ)
    (e : LabelledEvent) (order : List ℕ)
    → get_elem? events i ≡ some e
    → j < length slots
    → IsFilled env table events slots j ⊎ Memᴰ j (i ∷ order)
    → IsFilled env table events (set slots i (some (training_line env.codec table e))) j
      ⊎ Memᴰ j order
IsFilled-next env table events slots i j e order at h k = elim k [
  | inl filled ↦ inl (IsFilled-set env table events slots i j e at h (inr filled))
  | inr m ↦ elim (Memᴰ.cases_cons m) [
    | inl same ↦ inl (IsFilled-set env table events slots i j e at h (inl same))
    | inr later ↦ inr later
  ]
]

module _ (env : Env) (quiet : (n : ℕ) → env.reply n ≡ done) (events : List LabelledEvent)
    (table : List EventRow) where
  run_jobs-IsFilled :
      (order : List ℕ) (slots : Slots) (w : World)
      → w.events ≡ table
      → All (λ i. i < length events) order
      → length slots ≡ length events
      → (filled : Slots) × (length filled ≡ length events)
        × ((run_jobs env events order slots w).0 ≡ ok filled)
        × ((j : ℕ)
            → j < length events
            → IsFilled env table events slots j ⊎ Memᴰ j order
            → IsFilled env table events filled j)
  unfolding run_jobs
  run_jobs-IsFilled [] slots w same h len =
      (slots, len, refl, λ j k f. elim f [ inl g ↦ g | inr m ↦ elim m [ ] ])
  run_jobs-IsFilled (i ∷ order) slots w same (h, hs) len =
      let (e, at) = get_elem?-in events i h in
      let (runs, keeps) = build-features_of env e.ev w quiet in
      let w1 = (build env.codec (store_features env) e.ev w).1 in
      let line = training_line env.codec table e in
      let (filled, n, r, k) =
        run_jobs-IsFilled order (set slots i (some line)) w1 (keeps ∙ same) hs
          (length-set slots i (some line) ∙ len) in
      (
        filled,
        n,
        ground (arith, at, runs, r, same),
        λ j b f.
            k j b (IsFilled-next env table events slots i j e order at (omega (arith, b, len)) f),
      )

map-line_of :
    (codec : Codec) (table : List EventRow) (events : List LabelledEvent)
    → map line_of (map (λ e. some (training_line codec table e)) events)
      ≡ map (training_line codec table) events
map-line_of codec table [] = refl
map-line_of codec table (e ∷ events) =
    ap (λ ls. training_line codec table e ∷ ls) (map-line_of codec table events)

-- The file that one worker would write that takes the labelled events by their time.
unfoldable pub sequential : Env → (String → Bool) → List EventRow → List Line
sequential env has_label table =
    (header ++ "label" ∷ [])
    ∷ map (training_line env.codec table) (map (scan_row env.codec) (labelled has_label table))

-- Where the database answers, and the workers take every labelled event, each at least once and in
-- any order, the file is the sequential one: the header, and for each labelled event, in the
-- order of time, the features among the stored events and the label.
pub export-sequential :
    (env : Env) (has_label : String → Bool) (order : List ℕ) (w : World)
    → ((n : ℕ) → env.reply n ≡ done)
    → All (λ i. i < length (labelled has_label w.events)) order
    → ((i : ℕ) → i < length (labelled has_label w.events) → Memᴰ i order)
    → (export env has_label order w).0 ≡ ok (sequential env has_label w.events)
unfolding export sequential read
export-sequential env has_label order w quiet valid covers =
    let events = map (scan_row env.codec) (labelled has_label w.events) in
    let n = length-map (scan_row env.codec) (labelled has_label w.events) in
    let (filled, l, r, k) =
      run_jobs-IsFilled env quiet events w.events order (blank events) (next w) refl (rw n valid)
        (length-blank events) in
    let lines = λ (e : LabelledEvent). some (training_line env.codec w.events e) in
    let complete =
      list_ext filled (map lines events) (l ∙ sym (length-map lines events))
        (λ i b. k i (omega (arith, b, l)) (inr (covers i (omega (arith, b, l, n))))) in
    ground (arith, quiet w.tick, r, complete, map-line_of env.codec w.events events)
