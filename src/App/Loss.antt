-- ===== src/App/Loss.antt =====
-- What cmd/dmz-collector/main.go does with an event that could not be stored, and with the spooled
-- events of a batch that went out.
use dmz_collector.Base.{
  ℕ, ◌≤◌, ◌<◌, ◌≡◌, subst, true, false, ◌&&◌, List, [], ◌∷◌, Option, none, some, Map, lookup, arith,
  member, All,
}
use dmz_collector.Event.{Event}
use dmz_collector.Normalizer.{ok, err, store_failed}
use dmz_collector.Buffer.Spool.{SpoolRecord, beyond}
use dmz_collector.Buffer.Spool
use dmz_collector.App.{App, Env, take_in}
use dmz_collector.App.Ingest.{is_storable, stored-cases, take_in_again}
use dmz_collector.App.Forward.{max_offset, mark_batch_forwarded}
use dmz_collector.Buffer.Spool.Pending.{loaded-beyond}

-- An event whose id was not seen and whose line cannot be written to the store, because the file
-- refuses it or the original text is not JSON, is refused with an error; yet its id is known from
-- then on: any later attempt under that id, whatever the files then allow, is answered as a
-- duplicate without an error, and leaves the store and the spool as they were before the first.
pub take_in_lost :
    (env later : Env) (e f : Event) (a : App)
    → member e.id a.seen_ids ≡ false
    → is_storable env e && env.store_writable ≡ false
    → f.id ≡ e.id
    → let (b, answer) = take_in env e a in
      let (c, retried) = take_in later f b in
      (answer ≡ err store_failed)
      × (retried ≡ ok (false, false))
      × (c.store ≡ a.store)
      × (c.spool ≡ a.spool)
unfolding take_in
take_in_lost env later e f a new refused same =
    let b = record a { seen_ids = e.id ∷ a.seen_ids } in
    ground (arith, stored-cases env e b, take_in_again env later e f a same)

abbrev pub or_zero : Option ℕ → ℕ
or_zero none = 0
or_zero (some o) = o

abbrev pub Within : Map ℕ → ℕ → List Event → Type 0
Within offsets m = All (λ e. or_zero (lookup e.id offsets) ≤ m)

Within-mono :
    (offsets : Map ℕ) (m n : ℕ) (es : List Event)
    → m ≤ n
    → Within offsets m es
    → Within offsets n es
Within-mono offsets m n [] h w = tt
Within-mono offsets m n (e ∷ es) h w = (omega arith, Within-mono offsets m n es h w.1)

max_offset-Within :
    (offsets : Map ℕ) (batch : List Event)
    → Within offsets (or_zero (max_offset offsets batch)) batch
unfolding max_offset
max_offset-Within offsets [] = tt
max_offset-Within offsets (e ∷ es) = (
  head,
  Within-mono offsets (or_zero (max_offset offsets es)) (or_zero (max_offset offsets (e ∷ es))) es
      tail (max_offset-Within offsets es),
)
  where
    head : or_zero (lookup e.id offsets) ≤ or_zero (max_offset offsets (e ∷ es))
    head = ground arith

    tail : or_zero (max_offset offsets es) ≤ or_zero (max_offset offsets (e ∷ es))
    tail = ground arith

-- Once a batch went out and its checkpoint was written, every event of the batch has a recorded
-- offset, if any, of at most the checkpoint; and the records that the spool then gives back as
-- pending all lie beyond it, so none at the offset of an event of the batch or at a lower one.
pub marked-pending :
    (env : Env) (batch : List Event) (a : App) (m : ℕ) (rs : List SpoolRecord)
    → max_offset a.offset_by_id batch ≡ some m
    → env.checkpoint_writable ≡ true
    → Spool.load_pending env.codec env.platform env.clock.text env.spool_readable
        (mark_batch_forwarded env batch a).spool
      ≡ some rs
    → Within a.offset_by_id m batch × All (λ r. m < r.offset) rs
unfolding mark_batch_forwarded Spool.mark_forwarded
marked-pending env batch a m rs greatest writable loaded = (
  subst (λ o. Within a.offset_by_id (or_zero o) batch) greatest
      (max_offset-Within a.offset_by_id batch),
  loaded-beyond env.codec env.platform env.clock.text env.spool_readable
      (record a.spool { checkpoint = some m }) rs (ground arith),
)
