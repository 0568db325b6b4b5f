-- ===== src/Event/RoundTrip.antt =====
-- ParseOne of internal/event/model.go reads back what ToMap writes.
use dmz_collector.Base.{
  String, false, not, [], ◌∷◌, ◌++◌, none, ◌≡◌, refl, ◌≢◌, ◌∙◌, ap, arith, eq_iff, Map, lookup,
  member, keep, All, Distinct, lookup-append_none, insert_new, append_assoc, append-nil, sym, map,
}
use dmz_collector.Text.{to_lower}
use dmz_collector.Value.{Value, entries-of_entries}
use dmz_collector.SourceUtil.{normalize_source_type}
use dmz_collector.Event.{
  Platform, Event, known_keys, ensure_defaults, parse_object, add_missing, known_fields, to_map,
}
use dmz_collector.Event.Defaults.{IsComplete, ensure_defaults_of_IsComplete}

-- An event in the form that ParseOne gives: complete, in lower case, of a canonical source type,
-- with extra fields under distinct keys other than the known ones.
pub record IsParsed (e : Event) : Type 0 where
  pub complete : IsComplete e
  pub severity : to_lower e.severity ≡ e.severity
  pub category : to_lower e.event_category ≡ e.event_category
  pub source_type : normalize_source_type e.source_type ≡ e.source_type
  pub unknown_keys : All (λ kv. member kv.0 known_keys ≡ false) e.extra_fields
  pub distinct : Distinct e.extra_fields

module _ {ℓ} {V : Type ℓ} where
  lookup_of_member :
      (k : String) (m : Map V) → member k (map (λ kv. kv.0) m) ≡ false → lookup k m ≡ none
  unfolding member lookup
  lookup_of_member k [] h = refl
  lookup_of_member k ((j, v) ∷ m) h = ground (arith, lookup_of_member k m)

  lookup-last :
      (j k : String) (v : V) (m : Map V)
      → lookup j m ≡ none
      → k ≢ j
      → lookup j (m ++ (k, v) ∷ []) ≡ none
  unfolding lookup
  lookup-last j k v m h ne =
      rw (lookup-append_none j m ((k, v) ∷ []) h) (ground (arith, eq_iff k j))

  keys_differ : {k : String} (j : String) (w : V) (m : Map V) → k ≡ j → lookup k ((j, w) ∷ m) ≢ none
  unfolding lookup
  keys_differ {k} j w m e h = ground (arith, eq_iff j k)

  All-lookup-last :
      (k : String) (v : V) (out m : Map V)
      → lookup k m ≡ none
      → All (λ kv. lookup kv.0 out ≡ none) m
      → All (λ kv. lookup kv.0 (out ++ (k, v) ∷ []) ≡ none) m
  unfolding lookup
  All-lookup-last k v out [] h a = tt
  All-lookup-last k v out ((j, w) ∷ m) h (a, as') = (
    lookup-last j k v out a (λ e. keys_differ j w m e h),
    All-lookup-last k v out m (ground (arith, eq_iff j k)) as',
  )

add_missing-append :
    (out extra : Map Value)
    → Distinct extra
    → All (λ kv. lookup kv.0 out ≡ none) extra
    → add_missing out extra ≡ out ++ extra
unfolding add_missing
add_missing-append out [] d a = sym (append-nil out)
add_missing-append out ((k, v) ∷ extra) (new, d) (a, as') =
    rw (a, add_missing, insert_new k v out a)
      (add_missing-append (out ++ (k, v) ∷ []) extra d (All-lookup-last k v out extra new as')
        ∙ append_assoc out ((k, v) ∷ []) extra)

keep_unknown :
    (m : Map Value)
    → All (λ kv. member kv.0 known_keys ≡ false) m
    → keep (λ kv. not (member kv.0 known_keys)) m ≡ m
keep_unknown [] h = refl
keep_unknown ((k, v) ∷ m) (h, hs) = rw h (ap (λ (r : Map Value). (k, v) ∷ r) (keep_unknown m hs))

missing_keys :
    (e : Event) (m : Map Value)
    → All (λ kv. member kv.0 known_keys ≡ false) m
    → All (λ kv. lookup kv.0 (known_fields e) ≡ none) m
unfolding known_fields
missing_keys e [] h = tt
missing_keys e ((k, v) ∷ m) (h, hs) = (lookup_of_member k (known_fields e) h, missing_keys e m hs)

pub to_map-append : (e : Event) → IsParsed e → to_map e ≡ known_fields e ++ e.extra_fields
unfolding to_map
to_map-append e n =
    add_missing-append (known_fields e) e.extra_fields n.distinct
      (missing_keys e e.extra_fields n.unknown_keys)

IsComplete-original_raw :
    (e : Event) (text : String) → IsComplete e → IsComplete (record e { original_raw = text })
IsComplete-original_raw e text c = record {
  id = c.id;
  timestamp = c.timestamp;
  received_at = c.received_at;
  zone = c.zone;
  source_type = c.source_type;
  source = c.source;
  severity = c.severity;
  protocol = c.protocol;
  event_category = c.event_category;
}

parse_object-append :
    (p : Platform) (now text : String) (e : Event)
    → IsParsed e
    → parse_object p now text (known_fields e ++ e.extra_fields)
      ≡ ensure_defaults p now (record e { original_raw = text })
unfolding parse_object lookup member known_fields
parse_object-append p now text e n = λ i. ensure_defaults p now (record e {
  source_type = n.source_type i;
  severity = n.severity i;
  event_category = n.category i;
  tags = entries-of_entries e.tags i;
  extra_fields = keep_unknown e.extra_fields n.unknown_keys i;
  original_raw = text;
})

-- An event in parsed form, written as a JSON object and parsed again at any clock reading, is the
-- same event, extra fields and tags included; only the original text is that of the new parse.
pub parse_object-to_map :
    (p : Platform) (now text : String) (e : Event)
    → IsParsed e
    → parse_object p now text (to_map e) ≡ record e { original_raw = text }
parse_object-to_map p now text e n =
    ap (parse_object p now text) (to_map-append e n)
    ∙ parse_object-append p now text e n
    ∙ ensure_defaults_of_IsComplete p now _ (IsComplete-original_raw e text n.complete)
