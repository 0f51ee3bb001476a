-- ===== src/Action/Valid/Audit.antt =====
-- The audit events that the operations append meet the constraints of session_action_audit.
use lisstech_drain_ctl.Prelude.{
  ℕ, ◌<◌, ◌^◌, String, true, not, ◌≡◌, refl, inl, inr, Option, none, some, List, [], ◌∷◌,
  Bool-cases,
}
use lisstech_drain_ctl.Prelude.Int.{ℤ, pos, ◌≤ℤ◌}
use lisstech_drain_ctl.Prelude.Rows.{All, All-append}
use lisstech_drain_ctl.Action.{delivered, expired, is_known_type, is_queued, SessionAction}
use lisstech_drain_ctl.Action.Store.{Row, Transition, entered, Store, append_audit, expire_rows}
use lisstech_drain_ctl.Action.Lifecycle.{deliver_row, mark_delivered, mark_all}
use lisstech_drain_ctl.Action.Valid.{
  IsValidRow, IsValidEvent, is_null, is_known_transition, is_queued_entry, is_active_entry,
}

abbrev pub Events : Store → Type 0
Events s = All IsValidEvent s.audit

module _ (uuid : ℕ → String) where
  pub append_audit-Events :
      (a : SessionAction) (at : ℤ) (t : Transition) (code by : Option String) (s : Store)
      → pos 0 ≤ℤ at
      → a.session_id < 2 ^ 32
      → pos 0 ≤ℤ a.expected_logon_at_ms
      → is_known_type a.action_type ≡ true
      → is_known_transition t ≡ true
      → is_null by ≡ not (is_queued_entry t)
      → is_null code ≡ is_active_entry t
      → Events s
      → Events (append_audit uuid a at t code by s)
  unfolding append_audit
  append_audit-Events a at t code by s p i l y k q c h = All-append IsValidEvent s.audit _ h (
    record {
      at = p;
      session = i;
      logon = l;
      known_type = y;
      known_transition = k;
      requester = q;
      result = c;
    },
    tt,
  )

  module _ (now : ℤ) (p : pos 0 ≤ℤ now) where
    pub expire_rows-Events :
        (code : String) (rs : List Row) (s : Store)
        → All IsValidRow rs
        → Events s
        → Events (expire_rows uuid now code rs s)
    unfolding expire_rows
    expire_rows-Events code [] s v h = h
    expire_rows-Events code (r ∷ rs) s v h = expire_rows-Events code rs _ v.1 (
        append_audit-Events r.action now (entered expired) (some code) none s p v.0.session
          v.0.logon v.0.known_type refl refl refl h)

    mark_delivered-Events :
        (r : Row) (s : Store) → IsValidRow r → Events s → Events (mark_delivered uuid now r s)
    unfolding mark_delivered
    mark_delivered-Events r s v h = elim (Bool-cases (is_queued r.action.state)) [
      | inl e ↦ rw e (
          append_audit-Events (deliver_row now r).action now (entered delivered) none none s p
            (unfold deliver_row in v.session) (unfold deliver_row in v.logon)
            (unfold deliver_row in v.known_type) refl refl refl h)
      | inr e ↦ rw e h
    ]

    pub mark_all-Events :
        (rs : List Row) (s : Store) → All IsValidRow rs → Events s → Events (mark_all uuid now rs s)
    unfolding mark_all
    mark_all-Events [] s v h = h
    mark_all-Events (r ∷ rs) s v h =
        mark_all-Events rs (mark_delivered uuid now r s) v.1 (mark_delivered-Events r s v.0 h)
