-- ===== src/Extraction/Repository/Sound.antt =====
-- The table of extractions under any operations: what stays true of all rows.
use research_monitor.Base.{
  ℕ, ◌≡◌, refl, inl, inr, Bool, true, false, ◌||◌, ◌&&◌, String, List, [], ◌∷◌, All, str_eq, eq_iff,
  Bool-cases, arith, if◌then◌else◌, All-append_last,
}
use research_monitor.Sql.{update_where, Table}
use research_monitor.Sql.Rows.{NoClash, NoClash-append, NoClash-update}
use research_monitor.Extraction.Types.{RequestPayload}
use research_monitor.Extraction.Row.{Row, Codec, clash}
use research_monitor.Extraction.Repository.Upserts.{new_row}
use research_monitor.Extraction.Repository.Edges.{IsClean, Moves}
use research_monitor.Extraction.Repository.Clean.{
  Op, apply, apply_all, Change, same, appended, changed, apply-Change,
}

-- The rows of a catalogue in order.
pub record IsSound (rows : List Row) : Type 0 where
  pub clean : All IsClean rows
  -- No two rows share an id or a source.
  pub distinct : NoClash clash rows

clash_symm : (r s : Row) → clash r s ≡ false → clash s r ≡ false
clash_symm r s h = ground (
  arith,
  eq_iff s.id r.id,
  eq_iff r.id s.id,
  eq_iff s.source_type r.source_type,
  eq_iff r.source_type s.source_type,
  eq_iff s.source_id r.source_id,
  eq_iff r.source_id s.source_id,
)

new_row-IsClean :
    (uuid column : String) (now : ℕ) (payload : RequestPayload)
    → IsClean (new_row uuid column now payload)
new_row-IsClean uuid column now payload = record {
  no_title = λ _. refl;
  no_body = λ _. refl;
  no_type = λ _. refl;
  no_words = λ _. refl;
  no_cause = λ _. refl;
  no_message = λ _. refl;
}

module _ (p : Row → Bool) (f : Row → Row) (m : (r : Row) → p r ≡ true → Moves r (f r)) where
  abbrev moved : Row → Row
  moved r = if p r then f r else r

  moved-IsClean : (r : Row) → IsClean r → IsClean (moved r)
  moved-IsClean r c = elim (Bool-cases (p r)) [
    | inl hit ↦ rw hit ((m r hit).clean c)
    | inr miss ↦ rw miss c
  ]

  moved-id : (r : Row) → (moved r).id ≡ r.id
  moved-id r = elim (Bool-cases (p r)) [ inl hit ↦ rw hit ((m r hit).same_id) | inr miss ↦ rw miss ]

  moved-type : (r : Row) → (moved r).source_type ≡ r.source_type
  moved-type r = elim (Bool-cases (p r)) [
    | inl hit ↦ rw hit ((m r hit).same_type)
    | inr miss ↦ rw miss
  ]

  moved-source : (r : Row) → (moved r).source_id ≡ r.source_id
  moved-source r = elim (Bool-cases (p r)) [
    | inl hit ↦ rw hit ((m r hit).same_source_id)
    | inr miss ↦ rw miss
  ]

  moved-clash : (r s : Row) → clash (moved r) (moved s) ≡ clash r s
  moved-clash r s = λ i.
      str_eq (moved-id s i) (moved-id r i)
      || str_eq (moved-type s i) (moved-type r i) && str_eq (moved-source s i) (moved-source r i)

  changed-IsClean : (rs : List Row) → All IsClean rs → All IsClean (update_where p f rs)
  changed-IsClean [] c = tt
  changed-IsClean (r ∷ rs) (c, cs) = (moved-IsClean r c, changed-IsClean rs cs)

Change-IsSound :
    {op : Op} {before after : List Row} → Change op before after → IsSound before → IsSound after
Change-IsSound (same e) h = rw e h
Change-IsSound {before} (appended uuid column now payload e free) h = rw e (record {
  clean = All-append_last IsClean _ before h.clean (new_row-IsClean uuid column now payload);
  distinct = NoClash-append clash clash_symm _ before free h.distinct;
})
Change-IsSound {before} (changed p f m _ e) h = rw e (record {
  clean = changed-IsClean p f m before h.clean;
  distinct = NoClash-update clash p f (moved-clash p f m) before h.distinct;
})

-- After any operations from a sound catalogue, whatever they answer, no two rows share an id or a
-- source, only done rows have artifact columns, and only failed rows have a failure.
pub apply_all-IsSound :
    (t : Table Row clash) (codec : Codec) (ops : List Op) (db : t.Db)
    → IsSound (t.rows db)
    → IsSound (t.rows (apply_all t codec ops db))
unfolding apply_all
apply_all-IsSound t codec [] db h = h
apply_all-IsSound t codec (op ∷ ops) db h =
    apply_all-IsSound t codec ops (apply t codec op db)
      (Change-IsSound (apply-Change t codec op db) h)
