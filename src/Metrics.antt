-- ===== src/Metrics.antt =====
-- server/internal/metrics/metrics.go: counters, gauges and histograms, and their text. Floats are a
-- parameter: their operations, their order and how they print. A label's key joins its values; the counts
-- of a histogram are uint64.
pub mod Labels
pub mod Buckets
mod Examples
use bumshi.Common.{
  ℕ, zero, suc, ◌+◌, ◌%◌, ◌^◌, Bool, true, false, not, ◌&&◌, ◌||◌, Option, none, some, List, [],
  ◌∷◌, ◌++◌, Bytes, codes, length, ltb, ◌==◌, if◌then◌else◌,
}
use bumshi.Strings.{itoa, join}
use bumshi.Maps.{Map, lookup, insert}

-- float64, as far as it is used
pub record Floats : Type 1 where
  pub Float : Type 0
  pub zero_float : Float
  pub one_float : Float
  pub add_float : Float → Float → Float
  pub sub_float : Float → Float → Float
  pub le_float : Float → Float → Bool
  pub is_negative : Float → Bool
  pub format_float : Float → Bytes

-- `labelKey`
unfoldable pub label_key : List Bytes → Bytes
unfolding join
label_key values = join values (31 ∷ [])

-- What the replacer of `escapeLabelValue` writes for a byte; it goes over the text once.
unfoldable pub escape_byte : ℕ → Bytes
escape_byte c =
    if c == b'\\'
    then b'\\' ∷ b'\\' ∷ []
    else if c == b'"'
    then b'\\' ∷ b'"' ∷ []
    else if c == b'\n'
    then b'\\' ∷ b'n' ∷ []
    else c ∷ []

-- `escapeLabelValue`
unfoldable pub escape_label_value : Bytes → Bytes
unfolding escape_byte
escape_label_value [] = []
escape_label_value (c ∷ s) = escape_byte c ++ escape_label_value s

-- `escapeHelp`
unfoldable pub escape_help : Bytes → Bytes
escape_help [] = []
escape_help (c ∷ s) =
    (if c == b'\\' then b'\\' ∷ b'\\' ∷ [] else if c == b'\n' then b'\\' ∷ b'n' ∷ [] else c ∷ [])
    ++ escape_help s

-- `name="value"`
unfoldable pub write_label : Bytes → Bytes → Bytes
unfolding escape_label_value
write_label name value = name ++ (b'=' ∷ b'"' ∷ (escape_label_value value ++ b'"' ∷ []))

-- The labels of a child, one for each name; it has as many values.
unfoldable pub label_list : List Bytes → List Bytes → List Bytes
unfolding write_label
label_list [] values = []
label_list (n ∷ names) [] = []
label_list (n ∷ names) (v ∷ values) = write_label n v ∷ label_list names values

-- `writeLabels`
unfoldable pub write_labels : List Bytes → List Bytes → Bytes
unfolding label_list join
write_labels [] values = []
write_labels (n ∷ names) values =
    b'{' ∷ (join (label_list (n ∷ names) values) (codes ",") ++ codes "}")

-- `writeBucketLabels`
unfoldable pub write_bucket_labels : List Bytes → List Bytes → Bytes → Bytes
unfolding label_list join
write_bucket_labels names values le =
    b'{'
    ∷ (join (label_list names values ++ (codes "le=\"" ++ (le ++ codes "\"")) ∷ []) (codes ",")
        ++ codes "}")

-- `writeHeader`
unfoldable pub write_header : Bytes → Bytes → Bytes → Bytes
unfolding escape_help
write_header name help kind =
    codes "# HELP "
    ++ (name
        ++ (b' '
            ∷ (escape_help help
                ++ (b'\n' ∷ (codes "# TYPE " ++ (name ++ (b' ' ∷ (kind ++ b'\n' ∷ []))))))))

-- `<` on strings
unfoldable pub less : Bytes → Bytes → Bool
less s [] = false
less [] (y ∷ t) = true
less (x ∷ s) (y ∷ t) = ltb x y || (x == y && less s t)

module _ {C : Type 0} (labels_of : C → List Bytes) where
  -- `sortedChildren`: by the keys of the labels
  unfoldable pub insert_child : C → List C → List C
  unfolding less label_key
  insert_child c [] = c ∷ []
  insert_child c (d ∷ cs) =
      let later = insert_child c cs in
      if less (label_key (labels_of d)) (label_key (labels_of c)) then d ∷ later else c ∷ d ∷ cs

  unfoldable pub sorted_children : Map C → List C
  unfolding insert_child
  sorted_children [] = []
  sorted_children ((key, c) ∷ m) = insert_child c (sorted_children m)

-- The texts of some children.
unfoldable pub all_lines : {C : Type 0} → (C → Bytes) → List C → Bytes
all_lines line [] = []
all_lines line (c ∷ cs) = line c ++ all_lines line cs

module _ (fl : Floats) where
  -- `counterChild` and `gaugeChild`
  pub record Child : Type 0 where
    pub label_values : List Bytes
    pub value : fl.Float

  -- `CounterVec` and `GaugeVec`
  pub record Vec : Type 0 where
    pub name : Bytes
    pub help : Bytes
    pub labels : List Bytes
    pub values : Map Child

  -- `histogramChild`
  pub record HistogramChild : Type 0 where
    pub label_values : List Bytes
    pub counts : List ℕ
    pub sum : fl.Float
    pub count : ℕ

  pub record HistogramVec : Type 0 where
    pub name : Bytes
    pub help : Bytes
    pub labels : List Bytes
    pub buckets : List fl.Float
    pub values : Map HistogramChild

  -- A child that exists, or a new one.
  unfoldable pub child_or_new : Option Child → List Bytes → Child
  child_or_new none values = record { label_values = values; value = fl.zero_float }
  child_or_new (some c) values = c

  -- What `CounterVec.Add` and `GaugeVec.mutate` share: nothing for another number of labels.
  unfoldable pub mutate : (fl.Float → fl.Float) → Vec → List Bytes → Vec
  unfolding label_key lookup insert child_or_new
  mutate f v values =
      if length values == length v.labels
      then (let c : Child = child_or_new (lookup v.values (label_key values)) values in
          record v { values = insert v.values (label_key values) (record c { value = f c.value }) })
      else v

  -- `CounterVec.Add`, `CounterVec.Inc`
  unfoldable pub add_counter : Vec → fl.Float → List Bytes → Vec
  unfolding mutate
  add_counter v delta values =
      if fl.is_negative delta then v else mutate (λ x. fl.add_float x delta) v values

  abbrev pub inc_counter : Vec → List Bytes → Vec
  inc_counter v values = add_counter v fl.one_float values

  -- `GaugeVec.Set`, `GaugeVec.Add`, `GaugeVec.Inc`, `GaugeVec.Dec`
  unfoldable pub set_gauge : Vec → fl.Float → List Bytes → Vec
  unfolding mutate
  set_gauge v x values = mutate (λ _. x) v values

  unfoldable pub add_gauge : Vec → fl.Float → List Bytes → Vec
  unfolding mutate
  add_gauge v delta values = mutate (λ x. fl.add_float x delta) v values

  abbrev pub inc_gauge : Vec → List Bytes → Vec
  inc_gauge v values = add_gauge v fl.one_float values

  abbrev pub dec_gauge : Vec → List Bytes → Vec
  dec_gauge v values = add_gauge v (fl.sub_float fl.zero_float fl.one_float) values

  -- The loop of `Observe` over the buckets.
  unfoldable pub count_in : fl.Float → List fl.Float → List ℕ → List ℕ
  count_in v [] counts = counts
  count_in v (ub ∷ buckets) [] = []
  count_in v (ub ∷ buckets) (n ∷ counts) =
      (if fl.le_float v ub then (n + 1) % 2 ^ 64 else n) ∷ count_in v buckets counts

  unfoldable pub zeros : List fl.Float → List ℕ
  zeros [] = []
  zeros (ub ∷ buckets) = 0 ∷ zeros buckets

  unfoldable pub histogram_or_new :
      Option HistogramChild → List fl.Float → List Bytes → HistogramChild
  unfolding zeros
  histogram_or_new none buckets values = record {
    label_values = values;
    counts = zeros buckets;
    sum = fl.zero_float;
    count = 0;
  }
  histogram_or_new (some c) buckets values = c

  -- What one measurement changes in a child.
  unfoldable pub observe_child : List fl.Float → fl.Float → HistogramChild → HistogramChild
  unfolding count_in
  observe_child buckets v c = record c {
    counts = count_in v buckets c.counts;
    sum = fl.add_float c.sum v;
    count = (c.count + 1) % 2 ^ 64;
  }

  -- `HistogramVec.Observe`
  unfoldable pub observe : HistogramVec → fl.Float → List Bytes → HistogramVec
  unfolding label_key lookup insert histogram_or_new observe_child
  observe h v values =
      if length values == length h.labels
      then record h {
        values = insert h.values (label_key values) (
            observe_child h.buckets v
              (histogram_or_new (lookup h.values (label_key values)) h.buckets values));
      }
      else h

  -- A sample's line.
  unfoldable pub sample_line : Bytes → Bytes → Bytes → Bytes
  sample_line name labels text = name ++ (labels ++ (b' ' ∷ (text ++ b'\n' ∷ [])))

  -- The bucket lines of `writeTo`.
  unfoldable pub bucket_lines : Bytes → List Bytes → List Bytes → List fl.Float → List ℕ → Bytes
  unfolding sample_line write_bucket_labels itoa
  bucket_lines name names values [] counts = []
  bucket_lines name names values (ub ∷ buckets) [] = []
  bucket_lines name names values (ub ∷ buckets) (n ∷ counts) =
      sample_line (name ++ codes "_bucket") (write_bucket_labels names values (fl.format_float ub))
        (itoa n)
      ++ bucket_lines name names values buckets counts

  -- The lines of one child in `HistogramVec.writeTo`.
  unfoldable pub histogram_lines : HistogramVec → HistogramChild → Bytes
  unfolding bucket_lines sample_line write_bucket_labels write_labels itoa
  histogram_lines h c =
      bucket_lines h.name h.labels c.label_values h.buckets c.counts
      ++ (sample_line (h.name ++ codes "_bucket")
            (write_bucket_labels h.labels c.label_values (codes "+Inf")) (itoa c.count)
          ++ (sample_line (h.name ++ codes "_sum") (write_labels h.labels c.label_values)
                (fl.format_float c.sum)
              ++ sample_line (h.name ++ codes "_count") (write_labels h.labels c.label_values)
                  (itoa c.count)))

  -- A line of `CounterVec.writeTo` and `GaugeVec.writeTo`.
  unfoldable pub child_line : Vec → Child → Bytes
  unfolding sample_line write_labels
  child_line v c =
      sample_line v.name (write_labels v.labels c.label_values) (fl.format_float c.value)

  -- `vector`: what a registry holds.
  pub data Vector : Type 0 where
    counter gauge : Vec → Vector
    histogram : HistogramVec → Vector

  -- `writeTo` of each
  unfoldable pub write_to : Vector → Bytes
  unfolding write_header all_lines sorted_children child_line histogram_lines
  write_to (counter v) =
      write_header v.name v.help (codes "counter")
      ++ all_lines (child_line v) (sorted_children (λ c. c.label_values) v.values)
  write_to (gauge v) =
      write_header v.name v.help (codes "gauge")
      ++ all_lines (child_line v) (sorted_children (λ c. c.label_values) v.values)
  write_to (histogram h) =
      write_header h.name h.help (codes "histogram")
      ++ all_lines (histogram_lines h) (sorted_children (λ c. c.label_values) h.values)

  -- `Registry.Handler`: the vectors in the order of their registration
  unfoldable pub render : List Vector → Bytes
  unfolding all_lines write_to
  render vecs = all_lines write_to vecs
