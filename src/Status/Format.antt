-- ===== src/Status/Format.antt =====
-- `FormatReport` of internal/status/status.go. The columns are set by text/tabwriter, a parameter, as is
-- the format of a time in UTC.
use schemago.Base.{◌&&◌, Option, none, some, List, [], ◌∷◌, ◌++◌, ltb, length, if◌then◌else◌}
use schemago.Text.{Bytes, codes}
use schemago.History.{Time}
use schemago.Status.{
  StatusState, unset, state_applied, state_pending, state_drifted, state_missing, Item, Report,
  has_drift,
}
use schemago.Output.{Script, done, write, ◌▷◌, write_all}
use schemago.Output.Decimal.{format_nat}

-- `stateStr`
abbrev state_text : StatusState → Bytes
state_text unset = []
state_text state_applied = codes "applied"
state_text state_pending = codes "pending"
state_text state_drifted = codes "applied"
state_text state_missing = codes "applied"

-- `driftDetails`
abbrev drift_details : Report → Bytes
drift_details r =
    if ltb 0 r.drifted_count && ltb 0 r.missing_count
    then codes " ("
      ++ (format_nat r.drifted_count
          ++ (codes " drifted, " ++ (format_nat r.missing_count ++ codes " missing)")))
    else if ltb 0 r.drifted_count
    then codes " (" ++ (format_nat r.drifted_count ++ codes " drifted)")
    else if ltb 0 r.missing_count
    then codes " (" ++ (format_nat r.missing_count ++ codes " missing)")
    else []

unfoldable pub summary_text : Report → Bytes
unfolding format_nat
summary_text r =
    codes "\nSummary: "
    ++ (format_nat r.applied_count
        ++ (codes " applied"
            ++ ((if has_drift r then drift_details r else [])
                ++ (codes ", "
                    ++ (format_nat r.pending_count
                        ++ (codes " pending (total "
                            ++ (format_nat (length r.items) ++ codes ")\n")))))))

-- `t.UTC().Format("2006-01-02 15:04:05 UTC")`, and what a flush of the tabwriter writes.
module _ (format_utc : Time → Bytes) (align : Bytes → List Bytes) where
  abbrev time_text : Option Time → Bytes
  time_text none = codes "-"
  time_text (some t) = format_utc t

  -- `appliedAtStr`
  abbrev applied_at_text : StatusState → Option Time → Bytes
  applied_at_text unset at_time = []
  applied_at_text state_applied at_time = time_text at_time
  applied_at_text state_pending at_time = codes "-"
  applied_at_text state_drifted at_time = time_text at_time ++ codes " [WARNING: checksum mismatch]"
  applied_at_text state_missing at_time = time_text at_time ++ codes " [WARNING: missing from disk]"

  abbrev item_text : Item → Bytes
  item_text item =
      state_text item.state
      ++ (b'\t'
          ∷ (item.name ++ (b'\t' ∷ (applied_at_text item.state item.applied_at ++ b'\n' ∷ []))))

  abbrev item_texts : List Item → Bytes
  item_texts [] = []
  item_texts (item ∷ items) = item_text item ++ item_texts items

  -- `FormatReport` of a report that is not nil.
  unfoldable pub format_report : Report → Script (Unit {0})
  unfolding summary_text
  format_report r = elim r.items [
    | [] ↦ write (codes "No migrations found.\n") done
    | item ∷ items ↦
        write_all (align (codes "STATE\tMIGRATION\tAPPLIED AT\n" ++ item_texts (item ∷ items)))
        ▷ write (summary_text r) done
  ]
