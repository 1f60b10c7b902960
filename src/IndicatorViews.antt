-- ===== src/IndicatorViews.antt =====
-- What a decision sees of indicators at a bar: src/zorqen_research/domain/indicator_views/, its keys.py,
-- histories.py and views.py.
pub mod Feed
pub mod Bundle
pub mod Shown
pub mod Lookahead
mod Tests
use zorqen_research.Base.{
  ℕ, zero, suc, ◌+◌, ◌-◌, Bool, true, false, ltb, leb, ◌==◌, ◌&&◌, not, Option, none, some, List,
  [], ◌∷◌, length, map, take, get_elem?, Result, ok, err, ◌>>=◌, ◌>>◌, raise_if, rethrow,
  if◌then◌else◌,
}
use zorqen_research.Base.Int.{ℤ, pos, negsuc}
use Prim.Native.String.{String}
use text.Mathlib.Text.{◌==◌ as str_eq}
use zorqen_research.Decimal.{Decimal}
use zorqen_research.Time.{Timeframe}
use zorqen_research.Indicators.Input.{IndicatorCode, true_range, IndicatorError, require_period}
use zorqen_research.Indicators.Assembly.{IndicatorSeries, Parameters, period_of, is_defined, is_key}

-- The attributes that the messages on an input and on a series name.
pub data InputField : Type 0 where
  symbol_field timeframe_field count_field minimum_field maximum_field candles_field hash_field :
      InputField

pub data SeriesField : Type 0 where
  bytes_field code_field series_symbol series_timeframe series_candles series_count : SeriesField
  parameters_field value_count_field values_field first_defined_field defined_count_field :
      SeriesField
  result_field : SeriesField

-- The IndicatorViewValidationErrors, an IndexError, and the errors of a recalculation.
pub data ViewError : Type 0 where
  key_takes_no_parameters key_needs_period : ViewError
  bad_period bad_indicator not_reconstructed : IndicatorError → ViewError
  input_mismatch : InputField → ViewError
  series_mismatch : ℕ → SeriesField → ViewError
  no_series duplicate_keys : ViewError
  key_hash_mismatch key_code_mismatch key_parameters_mismatch zip_mismatch : ViewError
  prefix_hashes_length prefix_counts_length end_out_of_range : ViewError
  bar_not_int bar_outside index_error : ViewError

pub record IndicatorSeriesKey : Type 0 where
  pub indicator_code : IndicatorCode
  pub parameters : List (String × ℕ)
  pub key_hash : String

-- `_canonicalize_key_parameters`, of the items of a mapping.
unfoldable pub canonicalize_key_parameters :
    IndicatorCode → Parameters → Result ViewError (List (String × ℕ))
unfolding require_period
canonicalize_key_parameters true_range [] = ok []
canonicalize_key_parameters true_range (p ∷ ps) = err key_takes_no_parameters
canonicalize_key_parameters code [] = err key_needs_period
canonicalize_key_parameters code (p ∷ []) = do
  raise_if (not (is_key p.0)) key_needs_period
  period ← rethrow bad_period (require_period p.1)
  ok (period_of period)
canonicalize_key_parameters code (p ∷ q ∷ ps) = err key_needs_period

-- `IndicatorSeriesKey.from_verified`
unfoldable pub key_from_verified :
    (IndicatorCode → List (String × ℕ) → String)
    → IndicatorCode
    → Parameters
    → Result ViewError IndicatorSeriesKey
unfolding canonicalize_key_parameters
key_from_verified digest_key code parameters = do
  ordered ← canonicalize_key_parameters code parameters
  ok (record { indicator_code = code; parameters = ordered; key_hash = digest_key code ordered })

-- `_VerifiedIndicatorSource`
pub record VerifiedIndicatorSource : Type 0 where
  pub series : IndicatorSeries
  pub values : List (Option Decimal)
  pub series_key : IndicatorSeriesKey
  pub prefix_hashes : List String
  pub defined_prefix_counts : List ℕ
  pub first_defined_index : Option ℕ

abbrev pub source_of :
    IndicatorSeries → IndicatorSeriesKey → List String → List ℕ → VerifiedIndicatorSource
source_of series series_key prefix_hashes defined_prefix_counts = record {
  series = series;
  values = series.values;
  series_key = series_key;
  prefix_hashes = prefix_hashes;
  defined_prefix_counts = defined_prefix_counts;
  first_defined_index = series.first_defined_index;
}

-- `_bind_trusted`
unfoldable pub bind_trusted :
    IndicatorSeries
    → IndicatorSeriesKey
    → List String
    → List ℕ
    → Result ViewError VerifiedIndicatorSource
bind_trusted series series_key prefix_hashes defined_prefix_counts = do
  raise_if (not (length prefix_hashes == suc (length series.values))) prefix_hashes_length
  raise_if (not (length defined_prefix_counts == suc (length series.values))) prefix_counts_length
  ok (source_of series series_key prefix_hashes defined_prefix_counts)

pub record VisibleIndicatorHistory : Type 0 where
  pub source : VerifiedIndicatorSource
  pub end_exclusive : ℕ

-- `_from_verified_source`
unfoldable pub history_from_source :
    VerifiedIndicatorSource → ℕ → Result ViewError VisibleIndicatorHistory
history_from_source source end_exclusive = do
  raise_if (ltb (length source.values) end_exclusive) end_out_of_range
  ok (record { source = source; end_exclusive = end_exclusive })

-- `xs[index]`
abbrev pub item_at {ℓ} : {A : Type ℓ} → Option A → Result ViewError A
item_at none = err index_error
item_at (some a) = ok a

-- `__iter__`
abbrev pub visible : VisibleIndicatorHistory → List (Option Decimal)
visible h = take h.end_exclusive h.source.values

-- `latest`
unfoldable pub latest : VisibleIndicatorHistory → Result ViewError (Option Decimal)
latest h = elim h.end_exclusive [ zero ↦ ok none | suc i ↦ item_at (get_elem? h.source.values i) ]

pub record IndicatorDecisionItem : Type 0 where
  pub series_key : IndicatorSeriesKey
  pub indicator_code : IndicatorCode
  pub parameters : List (String × ℕ)
  pub symbol : String
  pub timeframe : Timeframe
  pub history : VisibleIndicatorHistory
  pub visible_count : ℕ
  pub defined_visible_count : ℕ
  pub latest : Option Decimal
  pub ready : Bool
  pub visible_prefix_hash : String

-- The attributes that the factory sets.
abbrev pub item_of :
    String
    → Timeframe
    → VisibleIndicatorHistory
    → Option Decimal
    → ℕ
    → String
    → IndicatorDecisionItem
item_of symbol timeframe history latest defined_visible_count visible_prefix_hash = record {
  series_key = history.source.series_key;
  indicator_code = history.source.series_key.indicator_code;
  parameters = history.source.series_key.parameters;
  symbol = symbol;
  timeframe = timeframe;
  history = history;
  visible_count = history.end_exclusive;
  defined_visible_count = defined_visible_count;
  latest = latest;
  ready = is_defined latest;
  visible_prefix_hash = visible_prefix_hash;
}

-- `IndicatorDecisionItem._from_feed`
unfoldable pub item_from_feed :
    String → Timeframe → ℕ → VerifiedIndicatorSource → Result ViewError IndicatorDecisionItem
unfolding history_from_source latest
item_from_feed symbol timeframe end_exclusive source = do
  history ← history_from_source source end_exclusive
  value ← latest history
  defined ← item_at (get_elem? source.defined_prefix_counts end_exclusive)
  prefix_hash ← item_at (get_elem? source.prefix_hashes end_exclusive)
  ok (item_of symbol timeframe history value defined prefix_hash)

unfoldable pub items_from_feed :
    String
    → Timeframe
    → ℕ
    → List VerifiedIndicatorSource
    → Result ViewError (List IndicatorDecisionItem)
unfolding item_from_feed
items_from_feed symbol timeframe end_exclusive [] = ok []
items_from_feed symbol timeframe end_exclusive (source ∷ sources) = do
  item ← item_from_feed symbol timeframe end_exclusive source
  items ← items_from_feed symbol timeframe end_exclusive sources
  ok (item ∷ items)

abbrev pub all_ready : List IndicatorDecisionItem → Bool
all_ready [] = true
all_ready (item ∷ items) = item.ready && all_ready items

-- What the JSON of a view says of an item, and of the view.
pub record ItemDocument : Type 0 where
  pub indicator_code : IndicatorCode
  pub key_hash : String
  pub parameters : List (String × ℕ)
  pub ready : Bool
  pub visible_prefix_hash : String

pub record ViewDocument : Type 0 where
  pub bar_index : ℕ
  pub item_count : ℕ
  pub items : List ItemDocument
  pub overall_ready : Bool
  pub symbol : String
  pub timeframe : Timeframe
  pub visible_count : ℕ

abbrev pub item_document : IndicatorDecisionItem → ItemDocument
item_document item = record {
  indicator_code = item.indicator_code;
  key_hash = item.series_key.key_hash;
  parameters = item.parameters;
  ready = item.ready;
  visible_prefix_hash = item.visible_prefix_hash;
}

pub record IndicatorDecisionView : Type 0 where
  pub symbol : String
  pub timeframe : Timeframe
  pub bar_index : ℕ
  pub visible_count : ℕ
  pub items : List IndicatorDecisionItem
  pub item_count : ℕ
  pub overall_ready : Bool
  pub decision_view_hash : String

module _ (digest_view : ViewDocument → String) (symbol : String) (timeframe : Timeframe) where
  -- The attributes that the factory sets.
  unfoldable pub view_of : ℕ → List IndicatorDecisionItem → IndicatorDecisionView
  view_of bar_index items =
      let document : ViewDocument = record {
        bar_index = bar_index;
        item_count = length items;
        items = map item_document items;
        overall_ready = all_ready items;
        symbol = symbol;
        timeframe = timeframe;
        visible_count = suc bar_index;
      } in
      record {
        symbol = symbol;
        timeframe = timeframe;
        bar_index = bar_index;
        visible_count = suc bar_index;
        items = items;
        item_count = length items;
        overall_ready = all_ready items;
        decision_view_hash = digest_view document;
      }

  -- `IndicatorDecisionView._from_feed`
  unfoldable pub view_from_feed :
      ℕ → List VerifiedIndicatorSource → Result ViewError IndicatorDecisionView
  unfolding items_from_feed
  view_from_feed bar_index sources = do
    items ← items_from_feed symbol timeframe (suc bar_index) sources
    ok (view_of bar_index items)
