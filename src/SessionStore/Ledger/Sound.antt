-- ===== src/SessionStore/Ledger/Sound.antt =====
-- verify_integrity of src/w1cip/session_store.py calls a session valid exactly if its tables are whole.
use w1_nexus.Prelude.{◌≡◌, refl, String, Bool, true, false, not, List, [], cons-ne-nil}
use w1_nexus.SessionStore.Types.{EventRow, Store}
use w1_nexus.SessionStore.Platform.{Platform, Replay}
use w1_nexus.SessionStore.Projections.{events_of, order_by_sequence}
use w1_nexus.SessionStore.Integrity.{report}

report-nil : (b : Bool) (code : String) → report (not b) code ≡ [] → b ≡ true
report-nil true code h = refl
report-nil false code h = absurd (cons-ne-nil h)

module _ (p : Platform) (replay : Replay) (k : String) (s : Store p.Text) where
  open replay use {validate}

  abbrev rows : List (EventRow p.Text)
  rows = order_by_sequence (events_of k s.events)
