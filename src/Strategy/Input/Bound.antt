-- ===== src/Strategy/Input/Bound.antt =====
-- What the factory of src/zorqen_research/domain/strategy_backtesting/inputs.py binds together.
use zorqen_research.Base.{
  ℕ, ◌+◌, ◌≡◌, refl, sym, subst, ◌∙◌, List, [], ◌∷◌, length, All, ok, >>=-eq-ok, >>-eq-ok,
  rethrow-eq-ok, ok_inj, rethrow, not, ◌==◌, true, map,
}
use Prim.Native.String.{String}
use text.Mathlib.Text.{◌==◌ as str_eq}
use zorqen_research.Time.{Timeframe, is_aligned}
use zorqen_research.Market.Candle.{Candle}
use zorqen_research.Market.Derivation.{derive_timeframe_plan}
use zorqen_research.Market.Series.{require_canonical_series}
use zorqen_research.Market.Series.Grid.{IsGrid, require_canonical_series-IsGrid}
use zorqen_research.Market.Alignment.{
  Payload, ContextAlignment, from_candles, alignment_of, compute_no_lookahead_mapping,
}
use zorqen_research.Market.Alignment.Total.{from_candles_total}
use zorqen_research.Market.Alignment.Multi.{MultiPayload, from_alignments, same_timeframe}
use zorqen_research.Strategy.{
  TimeframeRequirement, StrategyInstance, timeframe_order, context_hash_diverged,
  execution_hash_diverged, series_count, not_derivable, not_canonical, not_aligned,
}
use zorqen_research.Strategy.Input.{
  ContextSeriesInput, BundleDocument, MultiTimeframeBacktestInput, bind_context, bind_contexts,
  bind_requirements, from_verified, alignment_of_input,
}

-- A series with a first candle that fills the grid of its timeframe.
pub record IsSeries (tf : Timeframe) (cs : List Candle) : Type 0 where
  pub head : Candle
  pub tail : List Candle
  pub nonempty : cs ≡ head ∷ tail
  pub canonical : require_canonical_series tf cs ≡ ok cs
  pub aligned : is_aligned head.open_time tf ≡ true
  pub grid : IsGrid tf head.open_time cs

-- A context with the mapping of its own candles under the execution's.
pub record IsBound (execution : List Candle) (context : ContextSeriesInput) : Type 0 where
  pub series : IsSeries context.timeframe context.candles
  pub mapped : context.alignment.mapping ≡ compute_no_lookahead_mapping execution context.candles

pub record IsBundle (hash : List Candle → String) (b : MultiTimeframeBacktestInput) : Type 0 where
  pub series : IsSeries b.execution_timeframe b.execution_candles
  pub count : b.execution_candle_count ≡ length b.execution_candles
  pub hashed : b.execution_candle_sha256 ≡ hash b.execution_candles
  pub bound : All (IsBound b.execution_candles) b.contexts

canonical-IsSeries :
    (tf : Timeframe) (cs : List Candle) {out : List Candle}
    → require_canonical_series tf cs ≡ ok out
    → IsSeries tf out
unfolding require_canonical_series
canonical-IsSeries tf [] h = cc
canonical-IsSeries tf (c ∷ cs) h =
    let (same, aligned, grid) = require_canonical_series-IsGrid tf c cs h in
    subst (λ xs. IsSeries tf xs) (sym same)
      (record {
        head = c;
        tail = cs;
        nonempty = refl;
        canonical = subst (λ xs. require_canonical_series tf (c ∷ cs) ≡ ok xs) same h;
        aligned = aligned;
        grid = grid;
      })

module _ (hash : List Candle → String) (digest : Payload → String) where
  from_candles-mapping :
      (symbol : String) (etf ctf : Timeframe) {plan : _} (execution context : List Candle)
      {a : ContextAlignment}
      → IsSeries etf execution
      → IsSeries ctf context
      → derive_timeframe_plan etf ctf ≡ ok plan
      → from_candles hash digest symbol etf ctf execution context ≡ ok a
      → a.mapping ≡ compute_no_lookahead_mapping execution context
  unfolding alignment_of
  from_candles-mapping symbol etf ctf execution context {a} e c planned h =
      let g =
        subst (λ xs. from_candles hash digest symbol etf ctf xs context ≡ ok a) e.nonempty h in
      let total =
        from_candles_total hash digest symbol etf ctf e.head e.tail context planned
          (subst (λ xs. require_canonical_series etf xs ≡ ok xs) e.nonempty e.canonical)
          c.canonical in
      let same = ok_inj (sym total ∙ g) in
      subst (λ (x : ContextAlignment). x.mapping ≡ compute_no_lookahead_mapping execution context)
        same
        (subst
          (λ xs.
            compute_no_lookahead_mapping xs context
            ≡ compute_no_lookahead_mapping execution context)
          e.nonempty refl)

  bind_context-IsBound :
      (symbol : String) (etf : Timeframe) (execution : List Candle) (i : ℕ)
      (r : TimeframeRequirement) (tf : Timeframe) (cs : List Candle) {context : ContextSeriesInput}
      → IsSeries etf execution
      → bind_context hash digest symbol etf execution i r (tf, cs) ≡ ok context
      → IsBound execution context
  unfolding bind_context
  bind_context-IsBound symbol etf execution i r tf cs e h =
      let (_, h1) = >>-eq-ok (not (same_timeframe tf r.timeframe)) (timeframe_order i) h in
      let (plan, planned, h2) =
        >>=-eq-ok (rethrow not_derivable (derive_timeframe_plan etf tf)) _ h1 in
      let (canonical, accepted, h3) =
        >>=-eq-ok (rethrow not_canonical (require_canonical_series tf cs)) _ h2 in
      let (alignment, made, h4) =
        >>=-eq-ok (rethrow not_aligned (from_candles hash digest symbol etf tf execution canonical))
          _ h3 in
      let (_, h5) =
        >>-eq-ok (not (str_eq (hash canonical) alignment.context_candle_sha256))
          context_hash_diverged h4 in
      let series = canonical-IsSeries tf cs (rethrow-eq-ok not_canonical _ accepted) in
      subst (λ x. IsBound execution x) (ok_inj h5)
        (record {
          series = series;
          mapped =
              from_candles-mapping symbol etf tf execution canonical e series
                (rethrow-eq-ok not_derivable _ planned) (rethrow-eq-ok not_aligned _ made);
        })

  bind_contexts-IsBound :
      (symbol : String) (etf : Timeframe) (execution : List Candle) (i : ℕ)
      (rs : List TimeframeRequirement) (series : List (Timeframe × List Candle))
      {contexts : List ContextSeriesInput}
      → IsSeries etf execution
      → bind_contexts hash digest symbol etf execution i rs series ≡ ok contexts
      → All (IsBound execution) contexts
  unfolding bind_contexts
  bind_contexts-IsBound symbol etf execution i [] series e h =
      subst (λ cs. All (IsBound execution) cs) (ok_inj h) tt
  bind_contexts-IsBound symbol etf execution i (r ∷ rs) [] e h = cc
  bind_contexts-IsBound symbol etf execution i (r ∷ rs) ((tf, cs) ∷ series) e h =
      let (context, bound, h1) =
        >>=-eq-ok (bind_context hash digest symbol etf execution i r (tf, cs)) _ h in
      let (contexts, others, h2) =
        >>=-eq-ok (bind_contexts hash digest symbol etf execution (i + 1) rs series) _ h1 in
      subst (λ cs. All (IsBound execution) cs) (ok_inj h2)
        (
          bind_context-IsBound symbol etf execution i r tf cs e bound,
          bind_contexts-IsBound symbol etf execution (i + 1) rs series e others,
        )

  module _ (digest_multi : MultiPayload → String) (digest_bundle : BundleDocument → String) where
    bind_requirements-IsBundle :
        (strategy : StrategyInstance) (symbol : String) (candles : List Candle)
        (rs : List TimeframeRequirement) (series : List (Timeframe × List Candle))
        {b : MultiTimeframeBacktestInput}
        → bind_requirements hash digest digest_multi digest_bundle strategy symbol candles rs series
          ≡ ok b
        → IsBundle hash b
    unfolding bind_requirements
    bind_requirements-IsBundle strategy symbol candles [] series h = cc
    bind_requirements-IsBundle strategy symbol candles (r ∷ rs) series h =
        let etf = strategy.definition.execution_timeframe in
        let (execution, accepted, h1) =
          >>=-eq-ok (rethrow not_canonical (require_canonical_series etf candles)) _ h in
        let (_, h2) = >>-eq-ok (not (length series == length (r ∷ rs))) series_count h1 in
        let (contexts, bound, h3) =
          >>=-eq-ok (bind_contexts hash digest symbol etf execution 0 (r ∷ rs) series) _ h2 in
        let (multi, _, h4) =
          >>=-eq-ok
            (rethrow not_aligned
              (from_alignments digest digest_multi (map (alignment_of_input hash digest) contexts)))
            _ h3 in
        let (_, h5) =
          >>-eq-ok (not (str_eq (hash execution) multi.execution_candle_sha256))
            execution_hash_diverged h4 in
        let e = canonical-IsSeries etf candles (rethrow-eq-ok not_canonical _ accepted) in
        subst (λ x. IsBundle hash x) (ok_inj h5)
          (record {
            series = e;
            count = refl;
            hashed = refl;
            bound = bind_contexts-IsBound symbol etf execution 0 (r ∷ rs) series e bound;
          })

    pub from_verified-IsBundle :
        (strategy : StrategyInstance) (symbol : String) (candles : List Candle)
        (series : List (Timeframe × List Candle)) {b : MultiTimeframeBacktestInput}
        → from_verified hash digest digest_multi digest_bundle strategy symbol candles series ≡ ok b
        → IsBundle hash b
    unfolding from_verified
    from_verified-IsBundle strategy symbol candles series h =
        bind_requirements-IsBundle strategy symbol candles strategy.definition.context_requirements
          series h
