-- ===== src/Normalizer/Enrich.antt =====
-- What EnrichDMZ of internal/normalizer/enricher.go writes into the tags.
use dmz_collector.Base.{
  String, true, false, ◌&&◌, List, [], ◌∷◌, some, Map, lookup, lookup-insert, ◌≡◌, refl, arith,
  if◌then◌else◌, ◌==◌, member,
}
use dmz_collector.Value.{Value, bool, str}
use dmz_collector.SourceUtil.{splunk_sourcetype_for}
use dmz_collector.Event.{Event}
use dmz_collector.Normalizer.{
  needs_sourcetype, fill_sourcetype, stamped, hinted, is_high_value, index_hint_for,
  infer_purdue_zone, enrich_dmz,
}

-- The tags that EnrichDMZ may write.
abbrev pub dmz_keys : List String
dmz_keys =
    "dmz_collector" ∷ "dmz_received_at" ∷ "purdue_zone" ∷ "splunk_sourcetype" ∷ "siem_index_hint"
    ∷ "high_value" ∷ []

lookup-fill :
    (st k : String) (m : Map Value)
    → lookup k (fill_sourcetype st m) ≡ (
        if ("splunk_sourcetype" == k) && needs_sourcetype (lookup "splunk_sourcetype" m)
        then some (str (splunk_sourcetype_for st))
        else lookup k m)
unfolding fill_sourcetype
lookup-fill st k m =
    ground (arith, lookup-insert "splunk_sourcetype" k (str (splunk_sourcetype_for st)) m)

fields : (now : String) (e : Event) → record (enrich_dmz now e) { tags = e.tags } ≡ e
unfolding enrich_dmz hinted stamped
fields now e = ground arith

-- The mark and the hint are decided by the event as it came in: no tag that EnrichDMZ writes
-- before has a part in them.
is_high_value-hinted :
    (now : String) (e : Event) → is_high_value (hinted (stamped now e)) ≡ is_high_value e
unfolding is_high_value hinted stamped
is_high_value-hinted now e = simp (lookup-insert, lookup-fill)

index_hint_for-stamped :
    (now : String) (e : Event) → index_hint_for (stamped now e) ≡ index_hint_for e
unfolding index_hint_for stamped
index_hint_for-stamped now e = refl

lookup-enrich :
    (now k : String) (e : Event)
    → lookup k (enrich_dmz now e).tags ≡ (
        if is_high_value e && ("high_value" == k)
        then some (bool true)
        else lookup k (hinted (stamped now e)).tags)
unfolding enrich_dmz
lookup-enrich now k e =
    rw (is_high_value-hinted now e)
      (ground (arith, lookup-insert "high_value" k (bool true) (hinted (stamped now e)).tags))

-- Enrichment marks an event as of high value exactly when its category, severity, source type or
-- its two flags make it so; otherwise the tag `high_value` keeps what the producer sent.
high_value-enrich_dmz :
    (now : String) (e : Event)
    → lookup "high_value" (enrich_dmz now e).tags
      ≡ (if is_high_value e then some (bool true) else lookup "high_value" e.tags)
unfolding hinted stamped
high_value-enrich_dmz now e =
    rw (lookup-enrich now "high_value" e) (simp (lookup-insert, lookup-fill) (ground arith))

-- Enrichment changes nothing of an event but its tags, and of these only the six of the
-- collector: a tag under another key keeps its value, and five of the six are the collector's words for
-- this event: who received it and when, its zone, its sourcetype if it had none, its index. It is
-- marked as of high value exactly when its category, severity, source type or its two flags make it
-- so; otherwise the tag `high_value` keeps what the producer sent.
pub enrich_dmz_frame :
    (now k : String) (e : Event)
    → member k dmz_keys ≡ false
    → (record (enrich_dmz now e) { tags = e.tags } ≡ e)
      × (lookup k (enrich_dmz now e).tags ≡ lookup k e.tags)
      × (lookup "dmz_collector" (enrich_dmz now e).tags ≡ some (str "dmz_collector"))
      × (lookup "dmz_received_at" (enrich_dmz now e).tags ≡ some (str now))
      × (lookup "purdue_zone" (enrich_dmz now e).tags ≡ some (str (infer_purdue_zone e)))
      × (lookup "siem_index_hint" (enrich_dmz now e).tags ≡ some (str (index_hint_for e)))
      × (lookup "splunk_sourcetype" (enrich_dmz now e).tags ≡ (
          if needs_sourcetype (lookup "splunk_sourcetype" e.tags)
          then some (str (splunk_sourcetype_for e.source_type))
          else lookup "splunk_sourcetype" e.tags))
      × (lookup "high_value" (enrich_dmz now e).tags
          ≡ (if is_high_value e then some (bool true) else lookup "high_value" e.tags))
unfolding hinted stamped member
enrich_dmz_frame now k e other = (
  fields now e,
  rw (lookup-enrich now k e) (simp (lookup-insert, lookup-fill) (ground arith)),
  rw (lookup-enrich now "dmz_collector" e) (simp (lookup-insert, lookup-fill) (ground arith)),
  rw (lookup-enrich now "dmz_received_at" e) (simp (lookup-insert, lookup-fill) (ground arith)),
  rw (lookup-enrich now "purdue_zone" e) (simp (lookup-insert, lookup-fill) (ground arith)),
  rw (lookup-enrich now "siem_index_hint" e)
      (simp lookup-insert (ground (arith, index_hint_for-stamped now e))),
  rw (lookup-enrich now "splunk_sourcetype" e) (simp (lookup-insert, lookup-fill) (ground arith)),
  high_value-enrich_dmz now e,
)
