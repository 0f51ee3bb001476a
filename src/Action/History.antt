-- ===== src/Action/History.antt =====
-- The outbox over time: any sequence of the store's transactions.
use lisstech_drain_ctl.Prelude.{
  ℕ, ◌<◌, ◌^◌, zero, suc, String, Bool, true, false, ◌≡◌, sym, ap, some, [], arith, some_inj,
}
use mathlib.Core.Path.{subst}
use lisstech_drain_ctl.Prelude.Int.{ℤ, pos, ◌≤ℤ◌}
use lisstech_drain_ctl.Prelude.Rows.{All-delete_where}
use lisstech_drain_ctl.Prelude.Distinct.{Distinct-delete_where}
use lisstech_drain_ctl.Action.{ActionStatus, Outcome}
use lisstech_drain_ctl.Action.Store.{Store, row_id}
use lisstech_drain_ctl.Action.Outbox.{EnqueueInput, enqueue}
use lisstech_drain_ctl.Action.Outbox.Target.{ok}
use lisstech_drain_ctl.Action.Lifecycle.{
  deliver, complete, expire, cancel_for_privacy, purge_snapshots_for_privacy, retain,
}
use lisstech_drain_ctl.Action.Valid.{IsValidRow, IsValidEvent, IsValid, row_key}
use lisstech_drain_ctl.Action.Valid.Steps.{transition-IsValid, deliver-IsValid, complete-IsValid}
use lisstech_drain_ctl.Action.Valid.Enqueue.{enqueue-IsValid}

-- The clock of the dashboard reads a time after 1970, and the session id of an action is a uint32.
module _ (uuid : ℕ → String) where
  pub data Step (s t : Store) : Type 0 where
    enqueues :
        (input : EnqueueInput) {r : ActionStatus × Bool × Store}
        → input.action.session_id < 2 ^ 32
        → enqueue uuid input s ≡ ok r
        → t ≡ r.2
        → Step s t
    delivers : (host : String) (now : ℤ) → pos 0 ≤ℤ now → t ≡ (deliver uuid host now s).0 → Step s t
    completes :
        (host id : String) (o : Outcome) (now : ℤ)
        → pos 0 ≤ℤ now
        → t ≡ (complete uuid host id o now s).0
        → Step s t
    expires : (now : ℤ) → pos 0 ≤ℤ now → t ≡ (expire uuid now s).0 → Step s t
    cancels : (now : ℤ) → pos 0 ≤ℤ now → t ≡ (cancel_for_privacy uuid now s).0 → Step s t
    purges : (now : ℤ) → pos 0 ≤ℤ now → t ≡ (purge_snapshots_for_privacy uuid now s).0 → Step s t
    retains :
        (terminal_before audit_before : ℤ) (limit : ℕ) {i j : ℕ}
        → retain terminal_before audit_before limit s ≡ some (t, i, j)
        → Step s t

  pub data Reach (s : Store) : Store → Type 0 where
    here : Reach s s
    next : {t u : Store} → Reach s t → Step t u → Reach s u

  cleared-IsValid : (s : Store) → IsValid s → IsValid (record s { snapshots = []; latest = [] })
  cleared-IsValid s v = record {
    rows = v.rows;
    one_id = v.one_id;
    one_key = v.one_key;
    events = v.events;
  }

  retain-IsValid :
      (tb ab : ℤ) (n : ℕ) (s : Store) {t : Store} {i j : ℕ}
      → retain tb ab n s ≡ some (t, i, j)
      → IsValid s
      → IsValid t
  unfolding retain
  retain-IsValid tb ab zero s e v = absurd (ground arith)
  retain-IsValid tb ab (suc n) s {t} e v =
      subst IsValid (ap (λ (r : Store × ℕ × ℕ). r.0) (some_inj e)) (record {
        rows = All-delete_where IsValidRow _ s.outbox v.rows;
        one_id = Distinct-delete_where row_id _ s.outbox v.one_id;
        one_key = Distinct-delete_where row_key _ s.outbox v.one_key;
        events = All-delete_where IsValidEvent _ s.audit v.events;
      })

  -- Each transaction keeps every constraint of the schema, so none is ever refused for one.
  pub Step-IsValid : {s t : Store} → Step s t → IsValid s → IsValid t
  Step-IsValid (enqueues input small e same) v =
      subst IsValid (sym same) (enqueue-IsValid uuid input _ small e v)
  Step-IsValid (delivers host now p e) v =
      subst IsValid (sym e) (deliver-IsValid uuid now p host _ v)
  Step-IsValid (completes host id o now p e) v =
      subst IsValid (sym e) (complete-IsValid uuid now p host id o _ v)
  Step-IsValid (expires now p e) v =
      subst IsValid (sym e) (unfold expire in transition-IsValid uuid now p "expired" true _ v)
  Step-IsValid (cancels now p e) v = subst IsValid (sym e) (
      unfold cancel_for_privacy in transition-IsValid uuid now p "privacy_policy_changed" false _ v)
  Step-IsValid {s} (purges now p e) v = subst IsValid (sym e) (
      unfold purge_snapshots_for_privacy in
      transition-IsValid uuid now p "privacy_policy_changed" false _ (cleared-IsValid s v))
  Step-IsValid (retains tb ab n e) v = retain-IsValid tb ab n _ e v

  -- Every CHECK, the primary key and the unique index of the outbox, every CHECK of the audit table, and the
  -- erasure of the message of every ended action, hold after any sequence of transactions, where the session
  -- id of an enqueued action is a uint32 and the clock reads a time after 1970.
  pub Reach-IsValid : {s t : Store} → Reach s t → IsValid s → IsValid t
  Reach-IsValid here v = v
  Reach-IsValid (next r st) v = Step-IsValid st (Reach-IsValid r v)
