-- ===== src/ReferenceStore/Resolve.antt =====
-- What the reference store of crates/pm-data/src/reference_store.rs resolves after its operations.
use rtt.Prelude.{◌≡◌, ◌&&◌, none, some, unwrap_or, if◌then◌else◌, arith}
use rtt.Order.{Text, text_ord, pair_ord, same}
use rtt.BTreeMap.Lookup.{lookup-insert, lookup-retain}
use rtt.Events.{InstrumentKind, InstrumentRef, kind_text, NormalizedUpdate}
use rtt.ReferenceStore.{
  ReferenceStore, for_subject, default_state, note, apply_reference, resolve_subject,
  of_other_source, of_other_instrument, clear_reference_source, clear_instrument,
}

-- An update is noted at its subject, with its notice, and nowhere else.
pub resolve_subject-apply_reference :
    (store : ReferenceStore) (update : NormalizedUpdate) (subject : InstrumentRef)
    → resolve_subject (apply_reference store update) subject ≡ (
        if same (for_subject subject) (for_subject update.notice.subject)
        then some (
            note update.payload
              (record (unwrap_or (resolve_subject store update.notice.subject) default_state) {
                last_notice = some update.notice;
              }))
        else resolve_subject store subject)
unfolding resolve_subject apply_reference
resolve_subject-apply_reference store update subject =
    lookup-insert (for_subject subject) (for_subject update.notice.subject) _ store

-- Clearing a source forgets its subjects and no other.
pub resolve_subject-clear_source :
    (store : ReferenceStore) (source_id : Text) (subject : InstrumentRef)
    → resolve_subject (clear_reference_source store source_id) subject
      ≡ (if same subject.source_id source_id then none else resolve_subject store subject)
unfolding resolve_subject clear_reference_source
resolve_subject-clear_source store source_id subject =
    ground (arith, lookup-retain (of_other_source source_id) (for_subject subject) store)

-- Clearing an instrument of a source forgets it and no other.
pub resolve_subject-clear_instrument :
    (store : ReferenceStore) (source_id : Text) (kind : InstrumentKind) (instrument_id : Text)
    (subject : InstrumentRef)
    → resolve_subject (clear_instrument store source_id kind instrument_id) subject ≡ (
        if same subject.source_id source_id
          && (same (kind_text subject.kind) (kind_text kind)
              && same subject.instrument_id instrument_id)
        then none
        else resolve_subject store subject)
unfolding resolve_subject clear_instrument
resolve_subject-clear_instrument store source_id kind instrument_id subject = ground (
  arith,
  lookup-retain (of_other_instrument source_id kind instrument_id) (for_subject subject) store,
)
