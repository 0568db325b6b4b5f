-- ===== src/Event/Defaults.antt =====
-- What EnsureDefaults of internal/event/model.go guarantees.
use Prim.Native.String.{◌++◌}
use text.Mathlib.TextLemmas.{cons-append, cons≢nil}
use dmz_collector.Base.{String, ◌≡◌, ◌≢◌, ◌∙◌, sym, arith, eq_iff}
use dmz_collector.Event.{Platform, Event, or_default, fingerprint, defaulted, ensure_defaults}

-- An event on which every field that has a default is set.
pub record IsComplete (e : Event) : Type 0 where
  pub id : e.id ≢ ""
  pub timestamp : e.timestamp ≢ ""
  pub received_at : e.received_at ≢ ""
  pub zone : e.zone ≢ ""
  pub source_type : e.source_type ≢ ""
  pub source : e.source ≢ ""
  pub severity : e.severity ≢ ""
  pub protocol : e.protocol ≢ ""
  pub event_category : e.event_category ≢ ""

or_default-ne : (v d : String) → d ≢ "" → or_default v d ≢ ""
or_default-ne v d h = ground (arith, eq_iff v "")

or_default_set : (v d : String) → v ≢ "" → or_default v d ≡ v
or_default_set v d h = ground (arith, eq_iff v "")

prefixed-ne : (s : String) → "dmz-" ++ s ≢ ""
prefixed-ne s e = cons≢nil (sym (cons-append _ _ s) ∙ e)

fingerprint-ne : (p : Platform) (e : Event) → fingerprint p e ≢ ""
unfolding fingerprint
fingerprint-ne p e = prefixed-ne _

module _ (p : Platform) (now : String) (e : Event) (set : now ≢ "") where
  pub ensure_defaults-IsComplete : IsComplete (ensure_defaults p now e)
  unfolding ensure_defaults
  ensure_defaults-IsComplete = record {
    id = or_default-ne e.id _ (fingerprint-ne p _);
    timestamp = or_default-ne e.timestamp now set;
    received_at = or_default-ne e.received_at now set;
    zone = or_default-ne e.zone "OT" cons≢nil;
    source_type = or_default-ne e.source_type "unknown" cons≢nil;
    source = or_default-ne e.source "unknown" cons≢nil;
    severity = or_default-ne e.severity "info" cons≢nil;
    protocol = or_default-ne e.protocol "syslog" cons≢nil;
    event_category = or_default-ne e.event_category "unknown" cons≢nil;
  }

-- A complete event is left alone.
pub ensure_defaults_of_IsComplete :
    (p : Platform) (now : String) (e : Event) → IsComplete e → ensure_defaults p now e ≡ e
unfolding ensure_defaults
ensure_defaults_of_IsComplete p now e c = λ i. record e {
  id = or_default_set e.id (fingerprint p (defaulted p now e)) c.id i;
  timestamp = or_default_set e.timestamp now c.timestamp i;
  received_at = or_default_set e.received_at now c.received_at i;
  zone = or_default_set e.zone "OT" c.zone i;
  source = or_default_set e.source "unknown" c.source i;
  source_type = or_default_set e.source_type "unknown" c.source_type i;
  severity = or_default_set e.severity "info" c.severity i;
  protocol = or_default_set e.protocol "syslog" c.protocol i;
  event_category = or_default_set e.event_category "unknown" c.event_category i;
}

-- At any non-empty clock reading the defaults give an event on which every field that has a
-- default is set, and giving defaults again, at any other reading, changes nothing.
pub ensure_defaults_stable :
    (p : Platform) (now later : String) (e : Event)
    → now ≢ ""
    → IsComplete (ensure_defaults p now e)
      × (ensure_defaults p later (ensure_defaults p now e) ≡ ensure_defaults p now e)
ensure_defaults_stable p now later e set =
    let c = ensure_defaults-IsComplete p now e set in (c, ensure_defaults_of_IsComplete p later _ c)

-- The identity of an event that carries a timestamp depends on its payload alone: two deliveries,
-- at whatever clock readings, with whatever zone, source, severity, protocol, asset name and tags,
-- get one id if their own id, timestamp, source type, address, message, raw text and category agree.
pub id-ensure_defaults :
    (p : Platform) (now later : String) (e f : Event)
    → e.timestamp ≢ ""
    → e.id ≡ f.id
    → e.timestamp ≡ f.timestamp
    → e.source_type ≡ f.source_type
    → e.asset_ip ≡ f.asset_ip
    → e.message ≡ f.message
    → e.raw ≡ f.raw
    → e.event_category ≡ f.event_category
    → (ensure_defaults p now e).id ≡ (ensure_defaults p later f).id
unfolding ensure_defaults fingerprint
id-ensure_defaults p now later e f set id ts st ip msg raw cat = rw (
  ← id,
  ← ts,
  ← st,
  ← ip,
  ← msg,
  ← raw,
  ← cat,
  or_default_set e.timestamp now set,
  or_default_set e.timestamp later set,
)
