-- ===== src/Metrics.antt =====
-- suprime/metrics.py: the counters and gauges of a node. `G` are the functions that compute a gauge
-- when it is read; what one returns, or that it raises, is a parameter. Values are naturals.
use Prim.Native.String.{String}
use suprime.Base.{ℕ, ◌+◌, Option, none, some, [], ◌∷◌}
use suprime.Base.Key.{string_eq}
use suprime.Base.Dict.{Dict, get, put}

pub record MetricsRegistry (G : Type 0) : Type 0 where
  pub counters : Dict String ℕ
  pub gauges : Dict String ℕ
  pub gauge_fns : Dict String G

abbrev pub or_zero : Option ℕ → ℕ
or_zero none = 0
or_zero (some n) = n

-- What reading a gauge ends in.
pub data Reading : Type 0 where
  reads : Option ℕ → Reading
  raises : Reading

abbrev pub reading : Option ℕ → Reading
reading none = raises
reading (some n) = reads (some n)

module _ {G : Type 0} where
  unfoldable pub init : MetricsRegistry G
  init = record { counters = []; gauges = []; gauge_fns = [] }

  unfoldable pub inc : String → ℕ → MetricsRegistry G → MetricsRegistry G
  unfolding get put
  inc name amount m = record m {
    counters = put name (or_zero (get name m.counters) + amount) m.counters;
  }

  unfoldable pub set_gauge : String → ℕ → MetricsRegistry G → MetricsRegistry G
  unfolding put
  set_gauge name value m = record m { gauges = put name value m.gauges }

  unfoldable pub gauge_from : String → G → MetricsRegistry G → MetricsRegistry G
  unfolding put
  gauge_from name fn m = record m { gauge_fns = put name fn m.gauge_fns }

  unfoldable pub counter : String → MetricsRegistry G → ℕ
  unfolding get
  counter name m = or_zero (get name m.counters)

  abbrev pub computed : (G → Option ℕ) → Option ℕ → Option G → Reading
  computed call plain none = reads plain
  computed call plain (some fn) = reading (call fn)

  unfoldable pub gauge : (G → Option ℕ) → String → MetricsRegistry G → Reading
  unfolding get
  gauge call name m = computed call (get name m.gauges) (get name m.gauge_fns)

-- `out.update(...)`
unfoldable pub update : Dict String ℕ → Dict String ℕ → Dict String ℕ
unfolding put
update out [] = out
update out ((name, value) ∷ more) = update (put name value out) more

module _ {G : Type 0} (call : G → Option ℕ) where
  -- A gauge that raises is left out.
  abbrev pub put_some : String → Option ℕ → Dict String ℕ → Dict String ℕ
  put_some name none out = out
  put_some name (some value) out = put name value out

  unfoldable pub compute : Dict String G → Dict String ℕ → Dict String ℕ
  unfolding put
  compute [] out = out
  compute ((name, fn) ∷ fns) out = compute fns (put_some name (call fn) out)

  unfoldable pub snapshot : MetricsRegistry G → Dict String ℕ
  unfolding update compute
  snapshot m = compute m.gauge_fns (update m.counters m.gauges)
